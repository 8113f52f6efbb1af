-- ===== src/Utils/RangeExt/Encoding.antt =====
-- How a value of a range is laid out in memory: repr_encode and repr_decode. Bytes are numbers
-- below 256.
use cairo_native.Prelude.{
  ℕ, zero, suc, ◌+◌, ◌-◌, ◌*◌, ◌/◌, ◌%◌, ◌^◌, ◌≡◌, ◌≤◌, ◌<◌, ◌⊎◌, inl, inr, refl, ap, ◌∙◌, arith,
  false, if◌then◌else◌, Option, none, some, List, [], ◌∷◌,
}
use mathlib.Core.Option.{map}
use native.Mathlib.Nat.{mod-eq_of_lt}
use cairo_native.Prelude.Int.{
  ℤ, pos, negsuc, ◌+ℤ◌, ◌-ℤ◌, ◌≤ℤ◌, ◌<ℤ◌, leb_ℤ, int_laws, pos_part, neg_part,
}
use cairo_native.Num.Bits.{two_pow_mono, two_pow_add}
use cairo_native.Utils.RangeExt.{Range, size, repr_bit_width}
use cairo_native.Utils.RangeExt.Laws.{InRange, size-le, repr_bit_width-le}
use cairo_native.Types.Integer.{prime}
use cairo_native.Types.Layout.Defs.{get_integer_layout}

-- `rem_euclid` by a positive number.
abbrev pub rem_euclid : ℤ → ℕ → ℕ
rem_euclid (pos n) p = n % p
rem_euclid (negsuc n) p = p - 1 - n % p

-- `to_bytes_le`, resized: the least digits first, then zeros.
unfoldable pub le_bytes : ℕ → ℕ → List ℕ
le_bytes zero x = []
le_bytes (suc n) x = x % 256 ∷ le_bytes n (x / 256)

-- `from_bytes_le`
unfoldable pub of_le_bytes : List ℕ → ℕ
of_le_bytes [] = 0
of_le_bytes (b ∷ bs) = b + 256 * of_le_bytes bs

unfoldable pub repr_encode : Range → ℤ → Option (List ℕ)
unfolding size le_bytes get_integer_layout
repr_encode r value =
    let stored = rem_euclid (value -ℤ r.lower) prime in
    if leb_ℤ (size r) (pos stored)
    then none
    else some (le_bytes (get_integer_layout (repr_bit_width r % 2 ^ 32)).size stored)

-- The mask keeps the low bits.
unfoldable pub repr_decode : Range → ℕ → ℤ
repr_decode r raw = pos (raw % 2 ^ repr_bit_width r) +ℤ r.lower

of_le_bytes-le_bytes : (n x : ℕ) → x < 2 ^ (8 * n) → of_le_bytes (le_bytes n x) ≡ x
unfolding of_le_bytes le_bytes
of_le_bytes-le_bytes zero x h = omega (arith, h)
of_le_bytes-le_bytes (suc n) x h =
    let k : 8 * suc n ≡ 8 + 8 * n = omega arith in
    let e : 2 ^ (8 * suc n) ≡ 256 * 2 ^ (8 * n) = rw k (two_pow_add 8 (8 * n)) in
    rw (of_le_bytes-le_bytes n (x / 256) (omega (arith, h, e))) (omega arith)

-- The bytes of a layout hold the bits of its width.
layout-holds : (w : ℕ) → w ≤ 8 * (get_integer_layout w).size
unfolding get_integer_layout
layout-holds w = ground arith

rem_euclid-lt : (z : ℤ) (k : ℕ) → z ≡ pos k → k < prime → rem_euclid z prime ≡ k
rem_euclid-lt z k e h = rw e (mod-eq_of_lt h)

-- The distance of a value from the lower bound.
record Distance (r : Range) (a : ℤ) : Type 0 where
  pub value : ℕ
  pub value_eq : a -ℤ r.lower ≡ pos value
  pub restored : pos value +ℤ r.lower ≡ a
  pub lt_prime : value < prime
  pub lt_width : value < 2 ^ repr_bit_width r
  pub width_le : repr_bit_width r ≤ 252
  pub below : leb_ℤ (size r) (pos value) ≡ false

Distance-InRange :
    (r : Range) (a : ℤ) (k : ℕ)
    → a -ℤ r.lower ≡ pos k
    → InRange a r
    → size r ≤ℤ pos prime
    → Distance r a
unfolding size
Distance-InRange r a k e h fits =
    let inside : pos k <ℤ size r = omega (int_laws, ap pos_part e, ap neg_part e, h) in
    record {
      value = k;
      value_eq = e;
      restored = omega (int_laws, ap pos_part e, ap neg_part e);
      lt_prime = omega (int_laws, ap pos_part e, ap neg_part e, h, fits);
      lt_width = omega (int_laws, ap pos_part e, ap neg_part e, h, size-le r (omega (arith, h)));
      width_le = repr_bit_width-le r 252 (omega arith) (omega (arith, h)) (omega (arith, fits));
      below = ground (arith, inside);
    }

nonneg : (z : ℤ) → pos 0 ≤ℤ z → z ≡ pos (pos_part z)
nonneg (pos n) h = refl
nonneg (negsuc n) h = absurd (omega (arith, h))

remainder :
    (r : Range) (a value : ℤ) (k : ℕ)
    → a -ℤ r.lower ≡ pos k
    → k < prime
    → (value ≡ a) ⊎ (value ≡ a +ℤ pos prime)
    → rem_euclid (value -ℤ r.lower) prime ≡ k
remainder r a value k e h (inl same) =
    rem_euclid-lt (value -ℤ r.lower) k (ap (λ z. z -ℤ r.lower) same ∙ e) h
remainder r a value k e h (inr up) =
    let far : value -ℤ r.lower ≡ pos (k + prime) =
      ap (λ z. z -ℤ r.lower) up ∙ omega (int_laws, ap pos_part e, ap neg_part e) in
    rw far (omega (arith, h))

module _ (r : Range) (a : ℤ) (a_in : InRange a r) (fits : size r ≤ℤ pos prime) where
  -- For a range of at most as many integers as the prime, a value of it, and the value itself or
  -- the value plus the prime, which is how a felt shows a negative one: the encoding succeeds, and
  -- decoding the number that the bytes stand for gives the value.
  pub repr_encode-repr_decode :
      (value : ℤ)
      → (value ≡ a) ⊎ (value ≡ a +ℤ pos prime)
      → map (λ bytes. repr_decode r (of_le_bytes bytes)) (repr_encode r value) ≡ some a
  unfolding repr_encode repr_decode
  repr_encode-repr_decode value shown =
      let d =
        Distance-InRange r a (pos_part (a -ℤ r.lower))
          (nonneg (a -ℤ r.lower) (omega (int_laws, a_in))) a_in fits in
      let w = repr_bit_width r in
      let small : w % 2 ^ 32 ≡ w = omega (arith, d.width_le) in
      let room = two_pow_mono w (8 * (get_integer_layout w).size) (layout-holds w) in
      rw (
        remainder r a value d.value d.value_eq d.lt_prime shown,
        d.below,
        small,
        of_le_bytes-le_bytes (get_integer_layout w).size d.value (omega (arith, d.lt_width, room)),
        mod-eq_of_lt d.lt_width,
        d.restored,
      )

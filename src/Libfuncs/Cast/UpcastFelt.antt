-- ===== src/Libfuncs/Cast/UpcastFelt.antt =====
-- An upcast to a felt gives the representative of the integer below the prime.
use cairo_native.Prelude.{
  ◌+◌, ◌-◌, ◌^◌, ◌≡◌, ◌≤◌, ap, refl, max, true, false, arith, if◌then◌else◌, ◌&&◌, ◌||◌, [], ◌∷◌,
  Bool-cases, inl, inr, ◌⊎◌,
}
use cairo_native.Prelude.Int.{ℤ, pos, negsuc, ◌+ℤ◌, ◌-ℤ◌, neg_ℤ, ◌≤ℤ◌, ◌<ℤ◌, ltb_ℤ, int_laws}
use cairo_native.Error.{ok}
use cairo_native.Num.Bits.{bits}
use cairo_native.Num.Wrap.{wrap, wrap-pos}
use cairo_native.Mlir.{Mlir, IsMlir}
use cairo_native.Mlir.Laws.{addi-wrap}
use cairo_native.Utils.RangeExt.{Range, size, repr_bit_width}
use cairo_native.Utils.RangeExt.Laws.{InRange, repr_bit_width-le}
use cairo_native.Types.{CoreTypeConcrete, felt252}
use cairo_native.Types.Integer.{integer_range, is_bounded_int, is_felt252, prime}
use cairo_native.Libfuncs.BoundedInt.Operand.{repr_bias}
use cairo_native.Libfuncs.BoundedInt.Stored.{IsInteger, stored, typed-Shape}
use cairo_native.Libfuncs.BoundedInt.Compare.{const_int-wrap, unsigned_word, signed_word, cmpi-wrap}
use cairo_native.Libfuncs.BoundedInt.Products.{Within}
use cairo_native.Libfuncs.Cast.Build.{
  build_upcast, includes, signed_felt_range, half_prime, signed_to_felt252_repr,
}
use cairo_native.Libfuncs.Cast.Upcast.{
  extended-stored, includes-true, upcast_offset-bias, repr_bias-InRange,
}
use cairo_native.Emu.Numbers.{felt_of}

abbrev felt_range : Range
felt_range = record { lower = pos 0; upper = pos prime }

felt_width : repr_bit_width felt_range ≡ 252
unfolding repr_bit_width size bits ◌-ℤ◌
felt_width = refl

felt_integer_range : integer_range felt252 ≡ ok felt_range
unfolding integer_range
felt_integer_range = refl

felt_bias : (r : Range) → repr_bias felt252 r ≡ pos 0
unfolding repr_bias is_bounded_int
felt_bias r = refl

felt_is_felt252 : is_felt252 felt252 ≡ true
unfolding is_felt252
felt_is_felt252 = refl

-- The integers of a felt, read from zero to the prime or around zero.
abbrev pub FitsFelt : Range → Type 0
FitsFelt r = Within r felt_range ⊎ Within r signed_felt_range

fits_test :
    (r : Range)
    → FitsFelt r
    → (includes felt_range r || true && includes signed_felt_range r) ≡ true
fits_test r (inl h) = rw (includes-true felt_range r h)
fits_test r (inr h) =
    rw (includes-true signed_felt_range r h)
      (elim (includes felt_range r) as (λ b. (b || true) ≡ true) [ true ↦ refl | false ↦ refl ])

half_bounds :
    (signed_felt_range.lower ≡ negsuc (half_prime - 1))
    × (signed_felt_range.upper ≡ pos (half_prime + 1))
unfolding ◌+ℤ◌ neg_ℤ
half_bounds = (refl, refl)

signed_fits :
    (r : Range) (c : ℤ)
    → ltb_ℤ r.lower (pos 0) ≡ true
    → FitsFelt r
    → r.lower ≤ℤ c
    → c <ℤ r.upper
    → (negsuc (2 ^ 251 - 1) ≤ℤ c) × (c <ℤ pos (2 ^ 251))
signed_fits r c neg (inl h) low high = absurd (ground (arith, neg, h.0))
signed_fits r c neg (inr h) low high =
    let (e, f) = half_bounds in
    let l : negsuc (half_prime - 1) ≤ℤ r.lower = rw e at h.0 in
    let u : r.upper ≤ℤ pos (half_prime + 1) = rw f at h.1 in
    (omega (arith, l, low), omega (arith, u, high))

unsigned_fits :
    (r : Range) (c : ℤ)
    → ltb_ℤ r.lower (pos 0) ≡ false
    → FitsFelt r
    → InRange c r
    → (pos 0 ≤ℤ c) × (c <ℤ pos prime)
unsigned_fits r c nonneg (inl h) c_in = (omega (arith, h, c_in), omega (arith, h, c_in))
unsigned_fits r c nonneg (inr h) c_in =
    let (e, f) = half_bounds in
    let u : r.upper ≤ℤ pos (half_prime + 1) = rw f at h.1 in
    (ground (arith, nonneg, c_in.0), omega (arith, u, c_in))

fits_size : (r : Range) → FitsFelt r → r.upper -ℤ r.lower ≤ℤ pos (2 ^ 252)
fits_size r (inl h) = omega (int_laws, h)
fits_size r (inr h) =
    let (e, f) = half_bounds in
    let l : negsuc (half_prime - 1) ≤ℤ r.lower = rw e at h.0 in
    let u : r.upper ≤ℤ pos (half_prime + 1) = rw f at h.1 in omega (int_laws, l, u)

no_offset : (x : ℤ) → x -ℤ pos 0 ≡ x
no_offset x = omega int_laws

restored : (a x : ℤ) → a -ℤ x +ℤ x ≡ a
restored a x = omega int_laws

-- A word of 252 bits, with the prime added if it reads as negative.
represented :
    (a : ℤ)
    → negsuc (2 ^ 251 - 1) ≤ℤ a
    → a <ℤ pos (2 ^ 251)
    → (if ltb_ℤ a (pos 0) then wrap 252 (a +ℤ pos prime) else wrap 252 a) ≡ felt_of a
unfolding wrap ◌+ℤ◌
represented (pos n) lo hi = ground arith
represented (negsuc n) lo hi = ground arith

unsigned_represented : (a : ℤ) → pos 0 ≤ℤ a → a <ℤ pos prime → wrap 252 a ≡ felt_of a
unfolding wrap
unsigned_represented (pos n) lo hi = ground arith
unsigned_represented (negsuc n) lo hi = absurd (omega (arith, lo))

module _ {m : Mlir} (laws : IsMlir m) where
  signed_to_felt252_repr-felt_of :
      (a : ℤ)
      → negsuc (2 ^ 251 - 1) ≤ℤ a
      → a <ℤ pos (2 ^ 251)
      → signed_to_felt252_repr m 252 (wrap 252 a) ≡ ok (felt_of a)
  unfolding signed_to_felt252_repr
  signed_to_felt252_repr-felt_of a lo hi =
      let prime_word : wrap 252 (pos prime) ≡ prime = wrap-pos 252 prime (omega arith) in
      let zero_word : wrap 252 (pos 0) ≡ 0 = wrap-pos 252 0 (omega arith) in
      let test =
        cmpi-wrap laws {s = true} 252 a (pos 0) (signed_word 251 refl refl lo hi)
          (signed_word 251 refl refl (omega arith) (omega arith)) in
      let sum = addi-wrap laws 252 a (pos prime) in
      rw
        (
          laws.const_int_pos 252 0 (omega arith),
          laws.const_int_pos 252 prime (omega arith),
          rw zero_word at test,
          rw prime_word at sum,
        )
        (ap ok (represented a lo hi))

  -- The bias of the source, as a constant.
  const_int-bias :
      (r : Range) (c : ℤ) → FitsFelt r → InRange c r → m.const_int 252 c ≡ ok (wrap 252 c)
  const_int-bias r c fits c_in = elim (Bool-cases (ltb_ℤ r.lower (pos 0))) [
    | inl neg ↦
        let (lo, hi) = signed_fits r c neg fits c_in.0 c_in.1 in
        const_int-wrap laws {s = true} 252 c (signed_word 251 refl refl lo hi)
    | inr nonneg ↦
        let (lo, hi) = unsigned_fits r c nonneg fits c_in in
        const_int-wrap laws {s = false} 252 c (unsigned_word refl lo (omega (arith, hi)))
  ]

module _ {m : Mlir} (laws : IsMlir m) (src : CoreTypeConcrete) {r : Range} (a : ℤ)
    (src_int : IsInteger src) (r_eq : integer_range src ≡ ok r) (fits : FitsFelt r)
    (a_in : InRange a r) where
  -- For an integer type whose range lies between zero and the prime, or between minus half and
  -- half the prime, and a value of the range, the code for the upcast to a felt passes its
  -- assertion and jumps to branch 0 with the representative of the value below the prime.
  pub build_upcast-felt : build_upcast m false src felt252 (stored src r a) ≡ ok (0, felt_of a ∷ [])
  unfolding build_upcast
  build_upcast-felt =
      let s = typed-Shape src src_int r_eq in
      let x = repr_bias src r in
      let le : repr_bit_width r ≤ 252 =
        repr_bit_width-le r 252 (omega arith) (omega arith) (fits_size r fits) in
      let width : max (repr_bit_width r) 252 ≡ 252 = omega arith in
      rw
        (
          r_eq,
          felt_integer_range,
          felt_is_felt252,
          fits_test r fits,
          felt_width,
          width,
          extended-stored laws src r 252 a s a_in le,
          upcast_offset-bias src r felt252 felt_range,
          felt_bias felt_range,
          no_offset x,
          const_int-bias laws r x fits (repr_bias-InRange src r s),
          addi-wrap laws 252 (a -ℤ x) x,
          restored a x,
        )
        (elim (Bool-cases (ltb_ℤ r.lower (pos 0))) [
          | inl neg ↦
              let (lo, hi) = signed_fits r a neg fits a_in.0 a_in.1 in
              rw (neg, signed_to_felt252_repr-felt_of laws a lo hi)
          | inr nonneg ↦
              let (lo, hi) = unsigned_fits r a nonneg fits a_in in
              rw (nonneg, unsigned_represented a lo hi)
        ])

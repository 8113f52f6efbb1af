-- ===== src/Libfuncs/BoundedInt/Compare.antt =====
-- Stored integers are compared as the integers are, and constants are stored like values.
use cairo_native.Prelude.{
  ℕ, suc, ◌-◌, ◌^◌, ◌<◌, ◌≡◌, refl, sym, ap, ◌∙◌, arith, Bool, true, false, ◌&&◌, not,
  if◌then◌else◌, ltb, ◌==◌, Bool-cases, inl, inr, ==→eq, eq→==,
}
use cairo_native.Prelude.Int.{
  ℤ, pos, negsuc, ◌-ℤ◌, ◌≤ℤ◌, ◌<ℤ◌, int_laws, one_part, pos_part, ltb_ℤ, eqb_ℤ, eq_of_parts,
}
use cairo_native.Error.{ok}
use cairo_native.Num.Bits.{two_pow_pos, two_pow_suc}
use cairo_native.Num.Wrap.{wrap, wrap-lt}
use mathlib.Core.Bool.{false≢true}
use native.Mathlib.Nat.{mod-eq_of_lt}
use cairo_native.Mlir.{Mlir, IsMlir, eq, slt, ult, signed}
use cairo_native.Mlir.Laws.{signed-wrap}
use cairo_native.Utils.RangeExt.{Range, repr_bit_width}
use cairo_native.Utils.RangeExt.Laws.{InRange, offset-lt}
use cairo_native.Types.{CoreTypeConcrete}
use cairo_native.Types.Integer.{integer_range, is_bounded_int, is_signed_repr}
use cairo_native.Libfuncs.BoundedInt.Operand.{repr_bias}
use cairo_native.Libfuncs.BoundedInt.Stored.{Shape, biased, natural, twos}
use cairo_native.Libfuncs.BoundedInt.Convert.{bounds, wrap_eq_nat, eq_pos_part}

and_false : (b : Bool) → (b && not true) ≡ false
and_false true = refl
and_false false = refl

negative : (n : ℕ) → (ltb_ℤ (negsuc n) (pos 0) && not false) ≡ true
negative n = ground arith

suc-sub-one : (n : ℕ) → suc n - 1 ≡ n
suc-sub-one n = omega arith

-- Where the integer that a word stands for lies: in the unsigned or in the signed range.
pub data Placed (is_signed : Bool) (w : ℕ) (z : ℤ) : Type 0 where
  unsigned_word : is_signed ≡ false → pos 0 ≤ℤ z → z <ℤ pos (2 ^ w) → Placed is_signed w z
  signed_word :
      (v : ℕ)
      → is_signed ≡ true
      → w ≡ suc v
      → negsuc (2 ^ v - 1) ≤ℤ z
      → z <ℤ pos (2 ^ v)
      → Placed is_signed w z

-- The test of `is_signed_repr` on the type and its range.
abbrev pub signed_repr : CoreTypeConcrete → Range → Bool
signed_repr t r = ltb_ℤ r.lower (pos 0) && not (is_bounded_int t)

pub is_signed_repr-ok :
    (t : CoreTypeConcrete) {r : Range}
    → integer_range t ≡ ok r
    → is_signed_repr t ≡ ok (signed_repr t r)
unfolding is_signed_repr
is_signed_repr-ok t e = rw e

pub placed :
    (t : CoreTypeConcrete) (r : Range) (a : ℤ)
    → Shape (is_bounded_int t) r
    → InRange a r
    → Placed (signed_repr t r) (repr_bit_width r) (a -ℤ repr_bias t r)
unfolding repr_bias
placed t r a (biased b ne) h = rw b (unsigned_word (and_false _) (omega int_laws) (offset-lt r a h))
placed t r a (natural v b e lo hi) h =
    let (below, above) = bounds a h lo hi in
    rw (e, lo, b) (unsigned_word refl (omega int_laws) (omega int_laws))
placed t r a (twos v b e lo hi) h =
    let (below, above) = bounds a h lo hi in
    rw (e, lo, b) (signed_word v (negative (2 ^ v - 1)) refl (omega int_laws) (omega int_laws))

pub nat_word : (w : ℕ) (z : ℤ) → pos 0 ≤ℤ z → z <ℤ pos (2 ^ w) → wrap w z ≡ pos_part z
nat_word w z lo hi = wrap_eq_nat w (pos_part z) z (eq_pos_part z lo) (omega (arith, one_part z))

ltb_parts : (y z : ℤ) → pos 0 ≤ℤ y → pos 0 ≤ℤ z → ltb (pos_part y) (pos_part z) ≡ ltb_ℤ y z
ltb_parts (pos a) (pos b) h k = ground arith
ltb_parts (negsuc a) z h k = absurd (omega arith)
ltb_parts (pos a) (negsuc b) h k = absurd (omega arith)

eqb_of_eq : (y z : ℤ) → y ≡ z → eqb_ℤ y z ≡ true
eqb_of_eq y z e = ground arith

eq_of_eqb : (y z : ℤ) → eqb_ℤ y z ≡ true → y ≡ z
eq_of_eqb y z e = eq_of_parts y z (==→eq _ _ e)

-- A word of known sign stands for one integer.
Placed-injective :
    {s : Bool} (w : ℕ) {y z : ℤ} → Placed s w y → Placed s w z → wrap w y ≡ wrap w z → y ≡ z
Placed-injective w {y} {z} (unsigned_word u lo hi) (unsigned_word _ lo' hi') e =
    eq_pos_part y lo
    ∙ ap pos (sym (nat_word w y lo hi) ∙ e ∙ nat_word w z lo' hi')
    ∙ sym (eq_pos_part z lo')
Placed-injective w {y} {z} (signed_word v u e lo hi) (signed_word v' _ e' lo' hi') same =
    let one : v' ≡ v = omega arith in
    sym (signed-wrap v y lo hi)
    ∙ ap (signed (suc v)) (rw e at same)
    ∙ signed-wrap v z (rw one at lo') (rw one at hi')
Placed-injective w (unsigned_word u _ _) (signed_word v u' _ _ _) e =
    absurd (false≢true (sym u ∙ u'))
Placed-injective w (signed_word v u _ _ _) (unsigned_word u' _ _) e =
    absurd (false≢true (sym u' ∙ u))

module _ {m : Mlir} (laws : IsMlir m) where
  pub const_int-wrap : {s : Bool} (w : ℕ) (z : ℤ) → Placed s w z → m.const_int w z ≡ ok (wrap w z)
  unfolding wrap
  const_int-wrap w (pos n) (unsigned_word _ lo hi) =
      let fits : n < 2 ^ w = omega arith in
      laws.const_int_pos w n fits ∙ ap ok (sym (mod-eq_of_lt fits))
  const_int-wrap w (negsuc n) (unsigned_word _ lo hi) = absurd (omega arith)
  const_int-wrap w (pos n) (signed_word v _ e lo hi) =
      let fits : n < 2 ^ w = rw e (omega (arith, two_pow_suc v)) in
      laws.const_int_pos w n fits ∙ ap ok (sym (mod-eq_of_lt fits))
  const_int-wrap w (negsuc n) (signed_word v _ e lo hi) =
      let half : n < 2 ^ (w - 1) = rw (e, suc-sub-one v) (omega (arith, two_pow_pos v)) in
      let fits : n < 2 ^ w = rw e (omega (arith, two_pow_suc v, two_pow_pos v)) in
      laws.const_int_negsuc w n half ∙ ap ok (rw (mod-eq_of_lt fits) (omega arith))

  pub cmpi-wrap :
      {s : Bool} (w : ℕ) (y z : ℤ)
      → Placed s w y
      → Placed s w z
      → m.cmpi (if s then slt else ult) w (wrap w y) (wrap w z) ≡ ltb_ℤ y z
  cmpi-wrap w y z (unsigned_word u lo hi) (unsigned_word _ lo' hi') = rw u (
      laws.cmpi_lem ult w _ _ (wrap-lt w y) (wrap-lt w z)
      ∙ rw (nat_word w y lo hi, nat_word w z lo' hi') (ltb_parts y z lo lo'))
  cmpi-wrap w y z (signed_word v u e lo hi) (signed_word v' _ e' lo' hi') =
      let same : v' ≡ v = omega arith in
      rw u (
        laws.cmpi_lem slt w _ _ (wrap-lt w y) (wrap-lt w z)
        ∙ rw (e, signed-wrap v y lo hi, signed-wrap v z (rw same at lo') (rw same at hi')))
  cmpi-wrap w y z (unsigned_word u _ _) (signed_word v u' _ _ _) = absurd (false≢true (sym u ∙ u'))
  cmpi-wrap w y z (signed_word v u _ _ _) (unsigned_word u' _ _) = absurd (false≢true (sym u' ∙ u))

  pub cmpi-eq :
      {s : Bool} (w : ℕ) (y z : ℤ)
      → Placed s w y
      → Placed s w z
      → m.cmpi eq w (wrap w y) (wrap w z) ≡ eqb_ℤ y z
  cmpi-eq {s} w y z p q =
      laws.cmpi_lem eq w _ _ (wrap-lt w y) (wrap-lt w z)
      ∙ elim (Bool-cases (wrap w y == wrap w z)) [
        | inl same ↦ rw same (sym (eqb_of_eq y z (Placed-injective w p q (==→eq _ _ same))))
        | inr different ↦ rw different (elim (Bool-cases (eqb_ℤ y z)) [
          | inl e ↦ absurd (false≢true (sym different ∙ eq→== _ _ (ap (wrap w) (eq_of_eqb y z e))))
          | inr e ↦ sym e
        ])
      ]

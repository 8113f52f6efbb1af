-- ===== src/Libfuncs/BoundedInt/Convert.antt =====
-- The conversions between representations act on the integers that the patterns stand for.
use cairo_native.Prelude.{
  ℕ, zero, suc, ◌-◌, ◌^◌, ◌≤◌, ◌<◌, ◌≡◌, refl, sym, Bool, true, false, ap, ◌∙◌, arith, ◌||◌,
}
use cairo_native.Prelude.Int.{
  ℤ, pos, negsuc, ◌-ℤ◌, ◌≤ℤ◌, ◌<ℤ◌, nat_abs, int_laws, one_part, leb_ℤ, pos_part,
}
use cairo_native.Error.{ok}
use cairo_native.Num.Bits.{two_pow_mono}
use cairo_native.Num.Wrap.{wrap, wrap-lt, wrap-pos}
use mathlib.Core.Path.{subst}
use native.Mathlib.Nat.{mod-eq_of_lt}
use cairo_native.Mlir.{Mlir, IsMlir}
use cairo_native.Mlir.Laws.{addi-wrap, subi-wrap, signed-wrap}
use cairo_native.Utils.RangeExt.{Range, repr_bit_width}
use cairo_native.Utils.RangeExt.Laws.{InRange, offset-lt}
use cairo_native.Types.{CoreTypeConcrete}
use cairo_native.Types.Integer.{is_bounded_int}
use cairo_native.Libfuncs.BoundedInt.Operand.{repr_bias, adjust, resize, widen_operand_to_compute}
use cairo_native.Libfuncs.BoundedInt.Stored.{Shape, biased, natural, twos, stored}

or_true : (b : Bool) → (b || true) ≡ true
or_true true = refl
or_true false = refl

-- An integer that is not negative is its own pattern.
pub wrap_eq_nat : (w n : ℕ) (a : ℤ) → a ≡ pos n → n < 2 ^ w → wrap w a ≡ n
wrap_eq_nat w n a e h = ap (wrap w) e ∙ wrap-pos w n h

pub eq_pos_part : (a : ℤ) → pos 0 ≤ℤ a → a ≡ pos (pos_part a)
eq_pos_part (pos n) h = refl
eq_pos_part (negsuc n) h = absurd (omega arith)

-- The bounds of a value, where those of its range are known.
pub bounds :
    (a : ℤ) {lo hi : ℤ} {r : Range}
    → InRange a r
    → r.lower ≡ lo
    → r.upper ≡ hi
    → (lo ≤ℤ a) × (a <ℤ hi)
bounds a h p q = (subst (λ t. t ≤ℤ a) p h.0, subst (λ t. a <ℤ t) q h.1)

not_nonneg : (n : ℕ) → leb_ℤ (pos 0) (negsuc n) ≡ false
not_nonneg n = ground arith

-ℤ-zero : (a : ℤ) → a -ℤ pos 0 ≡ a
-ℤ-zero a = omega int_laws

module _ {m : Mlir} (laws : IsMlir m) where
  pub adjust-wrap :
      (w : ℕ) (a k : ℤ) → nat_abs k < 2 ^ w → adjust m w (wrap w a) k ≡ ok (wrap w (a -ℤ k))
  unfolding adjust
  adjust-wrap w a (pos zero) h = ap (λ t. ok (wrap w t)) (omega int_laws)
  adjust-wrap w a (pos (suc n)) h = rw (laws.const_int_pos w (suc n) (omega arith)) (
      ap ok (
        ap (m.subi w (wrap w a)) (sym (wrap-pos w (suc n) (omega arith)))
        ∙ subi-wrap laws w a (pos (suc n))))
  adjust-wrap w a (negsuc n) h = rw (laws.const_int_pos w (suc n) (omega arith)) (
      ap ok (
        ap (m.addi w (wrap w a)) (sym (wrap-pos w (suc n) (omega arith)))
        ∙ addi-wrap laws w a (pos (suc n))
        ∙ ap (wrap w) (omega int_laws)))

  pub resize-nat : (v w n : ℕ) → n < 2 ^ v → n < 2 ^ w → resize m v w n ≡ n
  unfolding resize
  resize-nat v w n h k = ground (arith, laws.trunci_lem v w n, laws.extui_lem v w n, mod-eq_of_lt k)

  extui-wrap :
      (v w : ℕ) (z : ℤ) → v ≤ w → pos 0 ≤ℤ z → z <ℤ pos (2 ^ v) → m.extui v w (wrap v z) ≡ wrap w z
  extui-wrap v w z h lo hi =
      let e : z ≡ pos (pos_part z) = eq_pos_part z lo in
      laws.extui_lem v w _ h (wrap-lt v z)
      ∙ wrap_eq_nat v (pos_part z) z e (omega (arith, one_part z))
      ∙ sym (wrap_eq_nat w (pos_part z) z e (omega (arith, one_part z, two_pow_mono v w h)))

  extsi-wrap :
      (v w : ℕ) (z : ℤ)
      → suc v ≤ w
      → negsuc (2 ^ v - 1) ≤ℤ z
      → z <ℤ pos (2 ^ v)
      → m.extsi (suc v) w (wrap (suc v) z) ≡ wrap w z
  extsi-wrap v w z h lo hi =
      laws.extsi_lem (suc v) w _ (omega arith) h (wrap-lt (suc v) z)
      ∙ ap (wrap w) (signed-wrap v z lo hi)

  -- Widening an operand keeps the integer, less the bias of its representation.
  pub widen-stored :
      (t : CoreTypeConcrete) (r : Range) (w : ℕ) (a : ℤ)
      → Shape (is_bounded_int t) r
      → InRange a r
      → repr_bit_width r ≤ w
      → widen_operand_to_compute m (record { ty = t; range = r }) w (stored t r a)
        ≡ wrap w (a -ℤ repr_bias t r)
  unfolding widen_operand_to_compute repr_bias
  widen-stored t r w a (biased b ne) h k =
      rw (b, or_true (leb_ℤ (pos 0) r.lower))
        (extui-wrap (repr_bit_width r) w (a -ℤ r.lower) k (omega int_laws) (offset-lt r a h))
  widen-stored t r w a (natural v b e lo hi) h k =
      let (below, above) = bounds a h lo hi in
      rw (e, lo, b)
        (extui-wrap (suc v) w (a -ℤ pos 0) (omega arith) (omega int_laws) (omega int_laws))
  widen-stored t r w a (twos v b e lo hi) h k =
      let (below, above) = bounds a h lo hi in
      rw (e, lo, b, not_nonneg (2 ^ v - 1))
        (extsi-wrap v w (a -ℤ pos 0) (omega arith) (omega int_laws) (omega int_laws))

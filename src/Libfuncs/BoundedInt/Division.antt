-- ===== src/Libfuncs/BoundedInt/Division.antt =====
-- Division of stored integers gives the stored quotient and rest, and moves the counter.
use cairo_native.Prelude.{
  ℕ, ◌+◌, ◌/◌, ◌%◌, ◌^◌, ◌<◌, ◌≡◌, sym, [], ◌∷◌, ap, ◌∙◌, Option, some, arith, le→leb,
}
use cairo_native.Prelude.Int.{ℤ, pos, ◌≤ℤ◌, ◌<ℤ◌, int_laws, one_part}
use cairo_native.Error.{ok}
use cairo_native.Num.Wrap.{wrap, wrap-pos}
use cairo_native.Mlir.{Mlir, IsMlir}
use native.Mathlib.Nat.{div-le_self, mod-le}
use cairo_native.Utils.RangeExt.{Range, zero_based_bit_width}
use cairo_native.Utils.RangeExt.Laws.{InRange, zero_based_bit_width-bounds}
use cairo_native.Types.{CoreTypeConcrete, bounded_int}
use cairo_native.Types.Integer.{integer_range}
use cairo_native.Libfuncs.Counter.{increment_builtin_counter_by_lem}
use cairo_native.Libfuncs.BoundedInt.Arith.{
  DivRemAlgorithm, range_checks, quotient_range, build_div_rem, known_small_rhs,
  known_small_quotient, known_small_lhs,
}
use cairo_native.Libfuncs.BoundedInt.Stored.{
  IsInteger, stored, typed-Shape, integer_operand-ok, integer_range-bounded_int,
  repr_bias-bounded_int,
}
use cairo_native.Libfuncs.BoundedInt.Convert.{adjust-wrap, widen-stored}
use cairo_native.Libfuncs.BoundedInt.Sums.{finish}
use cairo_native.Libfuncs.BoundedInt.Products.{Within, Within-Fits, restore, max_ℤ-bounds}

quotient_range-Within :
    (l r : Range)
    → pos 0 ≤ℤ l.lower
    → pos 0 ≤ℤ r.lower
    → Within l (quotient_range l r) × Within r (quotient_range l r)
unfolding quotient_range
quotient_range-Within l r h k = let high = max_ℤ-bounds l.upper r.upper in omega arith

range_checks-lt : (algorithm : DivRemAlgorithm) → range_checks algorithm < 2 ^ 64
range_checks-lt known_small_rhs = omega arith
range_checks-lt known_small_quotient = omega arith
range_checks-lt known_small_lhs = omega arith

module _ {m : Mlir} (laws : IsMlir m) (w : ℕ) (x y : ℕ) (x_lt : x < 2 ^ w) (y_lt : y < 2 ^ w)
    (y_pos : 0 < y) where
  divui-wrap : m.divui w (wrap w (pos x)) (wrap w (pos y)) ≡ wrap w (pos (x / y))
  divui-wrap =
      ap (λ t. m.divui w t (wrap w (pos y))) (wrap-pos w x x_lt)
      ∙ ap (m.divui w x) (wrap-pos w y y_lt)
      ∙ laws.divui_lem w x y x_lt y_lt y_pos
      ∙ sym (wrap-pos w (x / y) (omega (arith, div-le_self x y)))

  remui-wrap : m.remui w (wrap w (pos x)) (wrap w (pos y)) ≡ wrap w (pos (x % y))
  remui-wrap =
      ap (λ t. m.remui w t (wrap w (pos y))) (wrap-pos w x x_lt)
      ∙ ap (m.remui w x) (wrap-pos w y y_lt)
      ∙ laws.remui_lem w x y x_lt y_lt y_pos
      ∙ sym (wrap-pos w (x % y) (omega (arith, mod-le x y)))

-- The range of the rest, which starts at zero.
abbrev pub rem_range : ℤ → Range
rem_range rest = record { lower = pos 0; upper = rest }

module _ {m : Mlir} (laws : IsMlir m) (try_new : Range → Range → Option DivRemAlgorithm)
    (lhs rhs : CoreTypeConcrete) {l r : Range} (q : Range) (rest : ℤ) (counter x y : ℕ)
    (lhs_int : IsInteger lhs) (rhs_int : IsInteger rhs) (l_eq : integer_range lhs ≡ ok l)
    (r_eq : integer_range rhs ≡ ok r) (x_in : InRange (pos x) l) (y_in : InRange (pos y) r) where
  -- For a range of numbers that are not negative divided by a range of positive numbers, for
  -- which Sierra has an algorithm, and result ranges that hold the quotient and the rest, from
  -- zero on, the code for `bounded_int_div_rem` passes its assertions and jumps to branch 0
  -- with the counter, moved on by the algorithm's range checks modulo 2 ^ 64, and the stored
  -- forms of the quotient and the rest.
  pub build_div_rem-stored :
      (algorithm : DivRemAlgorithm)
      → try_new l r ≡ some algorithm
      → counter < 2 ^ 64
      → pos 0 ≤ℤ l.lower
      → pos 0 <ℤ r.lower
      → pos 0 ≤ℤ q.lower
      → InRange (pos (x / y)) q
      → InRange (pos (x % y)) (rem_range rest)
      → build_div_rem m try_new lhs rhs
          (bounded_int q)
          (bounded_int (rem_range rest))
          counter
          (stored lhs l (pos x))
          (stored rhs r (pos y))
        ≡ ok (
          0,
          (counter + range_checks algorithm) % 2 ^ 64
              ∷ stored (bounded_int q) q (pos (x / y))
              ∷ stored (bounded_int (rem_range rest)) (rem_range rest) (pos (x % y))
              ∷ [],
        )
  unfolding build_div_rem
  build_div_rem-stored algorithm chosen counter_lt l_nonneg r_pos q_nonneg in_q in_rem =
      let c = quotient_range l r in
      let w = zero_based_bit_width c in
      let (l_in, r_in) = quotient_range-Within l r l_nonneg (omega arith) in
      let l_fits = Within-Fits l c l_in (omega int_laws) in
      let r_fits = Within-Fits r c r_in (omega int_laws) in
      let (_, _, top) = zero_based_bit_width-bounds c (omega int_laws) in
      let x_lt : x < 2 ^ w = omega arith in
      let y_lt : y < 2 ^ w = omega arith in
      rw (
        integer_operand-ok lhs l_eq,
        integer_operand-ok rhs r_eq,
        integer_operand-ok (bounded_int q) (integer_range-bounded_int q),
        integer_operand-ok (bounded_int (rem_range rest))
            (integer_range-bounded_int (rem_range rest)),
        chosen,
        le→leb _ _ l_fits.width_le,
        le→leb _ _ r_fits.width_le,
        repr_bias-bounded_int q,
        repr_bias-bounded_int (rem_range rest),
        widen-stored laws lhs l w (pos x) (typed-Shape lhs lhs_int l_eq) x_in l_fits.width_le,
        widen-stored laws rhs r w (pos y) (typed-Shape rhs rhs_int r_eq) y_in r_fits.width_le,
        restore laws lhs l w (pos x) l_fits,
        restore laws rhs r w (pos y) r_fits,
        divui-wrap laws w x y x_lt y_lt (omega arith),
        adjust-wrap laws w (pos (x / y)) q.lower (omega (arith, div-le_self x y, one_part q.lower)),
        remui-wrap laws w x y x_lt y_lt (omega arith),
        adjust-wrap laws w (pos (x % y)) (pos 0) (omega arith),
        increment_builtin_counter_by_lem laws counter (range_checks algorithm) counter_lt
            (range_checks-lt algorithm),
        finish laws w (pos (x / y)) q in_q (omega (int_laws, div-le_self x y)),
        finish laws w (pos (x % y)) (rem_range rest) in_rem (omega (int_laws, mod-le x y)),
      )

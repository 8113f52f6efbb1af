-- ===== src/Refine/BoundedInt/Arith.antt =====
-- Agreement on the sum, the difference, the product, the quotient and the rest.
use cairo_native.Prelude.{
  ℕ, ◌+◌, ◌/◌, ◌%◌, ◌^◌, ◌<◌, ◌≡◌, refl, ap, [], ◌∷◌, Option, some, arith, ◌∙◌,
}
use cairo_native.Prelude.Int.{ℤ, pos, ◌+ℤ◌, ◌-ℤ◌, ◌*ℤ◌, ◌≤ℤ◌, ◌<ℤ◌, int_laws, pos_part}
use mathlib.Core.Path.{subst}
use cairo_native.Error.{ok}
use cairo_native.Mlir.{Mlir, IsMlir}
use cairo_native.Utils.RangeExt.{Range}
use cairo_native.Utils.RangeExt.Laws.{InRange}
use cairo_native.Types.{CoreTypeConcrete, bounded_int, range_check}
use cairo_native.Types.Integer.{integer_range}
use cairo_native.Sierra.{add, sub, mul, div_rem}
use cairo_native.Libfuncs.BoundedInt.Arith.{DivRemAlgorithm, range_checks}
use cairo_native.Libfuncs.BoundedInt.Select.{build}
use cairo_native.Libfuncs.BoundedInt.Stored.{stored}
use cairo_native.Libfuncs.BoundedInt.Sums.{
  sum_range, difference_range, build_add-stored, build_sub-stored,
}
use cairo_native.Libfuncs.BoundedInt.Products.{build_mul-stored}
use cairo_native.Libfuncs.BoundedInt.Division.{rem_range, build_div_rem-stored}
use cairo_native.Libfuncs.BoundedInt.Convert.{eq_pos_part}
use cairo_native.Libfuncs.BoundedInt.Branches.{le→leb_ℤ, lt→ltb_ℤ}
use cairo_native.Emu.Value.{Value, normal_branch, unit}
use cairo_native.Emu.Numbers.{numeric_arg}
use cairo_native.Emu.BoundedInt.{
  eval, eval_add, eval_sub, eval_mul, eval_binary, result_range, eval_div_rem, plain_range,
}
use cairo_native.Refine.Encodes.{
  Encodes, Agree, agree, counter, Encodes-Number, bounded_int-Encodes,
}

eval_binary-numeric :
    (op : ℤ → ℤ → ℤ) (d : Range) (v w : Value) {a b : ℤ}
    → numeric_arg v ≡ some a
    → numeric_arg w ≡ some b
    → eval_binary op (bounded_int d) (v ∷ w ∷ [])
      ≡ some (normal_branch 0 (Value.bounded_int d (op a b) ∷ []))
unfolding eval_binary result_range
eval_binary-numeric op d v w e f = rw (e, f)

eval_div_rem-pos :
    (q e : Range) (v w : Value) (x y : ℕ)
    → numeric_arg v ≡ some (pos x)
    → numeric_arg w ≡ some (pos y)
    → 0 < y
    → InRange (pos (x / y)) q
    → InRange (pos (x % y)) e
    → eval_div_rem (bounded_int q) (bounded_int e) (unit ∷ v ∷ w ∷ [])
      ≡ some (
          normal_branch 0
            (unit ∷ Value.bounded_int q (pos (x / y)) ∷ Value.bounded_int e (pos (x % y)) ∷ []))
unfolding eval_div_rem plain_range
eval_div_rem-pos q e v w x ℕ.zero v_eq w_eq positive in_q in_e = absurd (omega (arith, positive))
eval_div_rem-pos q e v w x (ℕ.suc n) v_eq w_eq positive in_q in_e = rw (
  v_eq,
  w_eq,
  le→leb_ℤ q.lower (pos (x / ℕ.suc n)) in_q.0,
  lt→ltb_ℤ (pos (x / ℕ.suc n)) q.upper in_q.1,
  le→leb_ℤ e.lower (pos (x % ℕ.suc n)) in_e.0,
  lt→ltb_ℤ (pos (x % ℕ.suc n)) e.upper in_e.1,
)

module _ {m : Mlir} (laws : IsMlir m) (try_new : Range → Range → Option DivRemAlgorithm)
    (lhs rhs : CoreTypeConcrete) {l r : Range} (l_eq : integer_range lhs ≡ ok l)
    (r_eq : integer_range rhs ≡ ok r) {v w : Value} {p q' : ℕ} (v_enc : Encodes lhs v p)
    (w_enc : Encodes rhs w q') where
  -- On a pattern and a value of each of two integer types that stand for the same integer, the
  -- code for `bounded_int_add` jumps to the branch that the interpreter takes, with a pattern
  -- for the interpreter's result in the `BoundedInt` of the sum of the ranges.
  pub add-Agree :
      Agree
        (λ i. bounded_int (sum_range l r) ∷ [])
        (eval (add lhs rhs (bounded_int (sum_range l r))) (v ∷ w ∷ []))
        (build m try_new (add lhs rhs (bounded_int (sum_range l r))) (p ∷ q' ∷ []))
  unfolding build eval eval_add
  add-Agree =
      let x = Encodes-Number lhs l_eq v_enc in
      let y = Encodes-Number rhs r_eq w_enc in
      let d = sum_range l r in
      agree 0 _ (stored (bounded_int d) d (x.value +ℤ y.value) ∷ [])
        (eval_binary-numeric ◌+ℤ◌ d v w x.numeric y.numeric)
        (rw (x.pattern_eq, y.pattern_eq)
          (build_add-stored laws lhs rhs x.value y.value x.is_integer y.is_integer l_eq r_eq
            x.in_range y.in_range))
        (bounded_int-Encodes d (x.value +ℤ y.value) (omega (int_laws, x.in_range, y.in_range)), tt)

  -- On a pattern and a value of each of two integer types that stand for the same integer, the
  -- code for `bounded_int_sub` jumps to the branch that the interpreter takes, with a pattern
  -- for the interpreter's result in the `BoundedInt` of the difference of the ranges.
  sub-Agree :
      Agree
        (λ i. bounded_int (difference_range l r) ∷ [])
        (eval (sub lhs rhs (bounded_int (difference_range l r))) (v ∷ w ∷ []))
        (build m try_new (sub lhs rhs (bounded_int (difference_range l r))) (p ∷ q' ∷ []))
  unfolding build eval eval_sub
  sub-Agree =
      let x = Encodes-Number lhs l_eq v_enc in
      let y = Encodes-Number rhs r_eq w_enc in
      let d = difference_range l r in
      agree 0 _ (stored (bounded_int d) d (x.value -ℤ y.value) ∷ [])
        (eval_binary-numeric ◌-ℤ◌ d v w x.numeric y.numeric)
        (rw (x.pattern_eq, y.pattern_eq)
          (build_sub-stored laws lhs rhs x.value y.value x.is_integer y.is_integer l_eq r_eq
            x.in_range y.in_range))
        (bounded_int-Encodes d (x.value -ℤ y.value) (omega (int_laws, x.in_range, y.in_range)), tt)

  -- On a pattern and a value of each of two integer types that stand for the same integer, and
  -- a `BoundedInt` that holds every product of the two ranges, the code for `bounded_int_mul`
  -- jumps to the branch that the interpreter takes, with a pattern for the interpreter's result.
  pub mul-Agree :
      (d : Range)
      → ((a b : ℤ) → InRange a l → InRange b r → InRange (a *ℤ b) d)
      → Agree
          (λ i. bounded_int d ∷ [])
          (eval (mul lhs rhs (bounded_int d)) (v ∷ w ∷ []))
          (build m try_new (mul lhs rhs (bounded_int d)) (p ∷ q' ∷ []))
  unfolding build eval eval_mul
  mul-Agree d holds =
      let x = Encodes-Number lhs l_eq v_enc in
      let y = Encodes-Number rhs r_eq w_enc in
      let in_d = holds x.value y.value x.in_range y.in_range in
      agree 0 _ (stored (bounded_int d) d (x.value *ℤ y.value) ∷ [])
        (eval_binary-numeric ◌*ℤ◌ d v w x.numeric y.numeric)
        (rw (x.pattern_eq, y.pattern_eq)
          (build_mul-stored laws lhs rhs d x.value y.value x.is_integer y.is_integer l_eq r_eq
            x.in_range y.in_range in_d))
        (bounded_int-Encodes d (x.value *ℤ y.value) in_d, tt)

  -- On the counter and a pattern and a value of each of two integer types that stand for the
  -- same integer, where no integer of the first range is negative and every integer of the
  -- second is positive, Sierra has an algorithm for the two ranges, and the result ranges,
  -- that of the rest from zero on, hold every quotient and every rest: the code for
  -- `bounded_int_div_rem` jumps to the branch that the interpreter takes, with the counter of
  -- the range checks and patterns for the interpreter's quotient and rest.
  pub div_rem-Agree :
      (q : Range) (rest : ℤ) (counter : ℕ) (algorithm : DivRemAlgorithm)
      → try_new l r ≡ some algorithm
      → counter < 2 ^ 64
      → pos 0 ≤ℤ l.lower
      → pos 0 <ℤ r.lower
      → pos 0 ≤ℤ q.lower
      → ((x y : ℕ)
          → InRange (pos x) l
          → InRange (pos y) r
          → InRange (pos (x / y)) q × InRange (pos (x % y)) (rem_range rest))
      → Agree
          (λ i. range_check ∷ bounded_int q ∷ bounded_int (rem_range rest) ∷ [])
          (eval
            (div_rem lhs rhs (bounded_int q) (bounded_int (rem_range rest)))
            (unit ∷ v ∷ w ∷ []))
          (build m try_new
            (div_rem lhs rhs (bounded_int q) (bounded_int (rem_range rest)))
            (counter ∷ p ∷ q' ∷ []))
  unfolding build eval
  div_rem-Agree q rest c algorithm chosen c_lt l_nonneg r_pos q_nonneg holds =
      let a = Encodes-Number lhs l_eq v_enc in
      let b = Encodes-Number rhs r_eq w_enc in
      let x = pos_part a.value in
      let y = pos_part b.value in
      let e = rem_range rest in
      let a_eq : a.value ≡ pos x = eq_pos_part a.value (omega (int_laws, a.in_range)) in
      let b_eq : b.value ≡ pos y = eq_pos_part b.value (omega (int_laws, b.in_range)) in
      let x_in : InRange (pos x) l = subst (λ z. InRange z l) a_eq a.in_range in
      let y_in : InRange (pos y) r = subst (λ z. InRange z r) b_eq b.in_range in
      let (in_q, in_e) = holds x y x_in y_in in
      agree 0 _
        ((c + range_checks algorithm) % 2 ^ 64
          ∷ stored (bounded_int q) q (pos (x / y))
          ∷ stored (bounded_int e) e (pos (x % y))
          ∷ [])
        (eval_div_rem-pos q e v w x y (a.numeric ∙ ap some a_eq) (b.numeric ∙ ap some b_eq)
          (omega arith) in_q in_e)
        (rw (a.pattern_eq, b.pattern_eq, a_eq, b_eq)
          (build_div_rem-stored laws try_new lhs rhs q rest c x y a.is_integer b.is_integer l_eq
            r_eq x_in y_in algorithm chosen c_lt l_nonneg r_pos q_nonneg in_q in_e))
        (
          counter refl refl (omega arith),
          (
            bounded_int-Encodes q (pos (x / y)) in_q,
            (bounded_int-Encodes e (pos (x % y)) in_e, tt),
          ),
        )

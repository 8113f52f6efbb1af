-- ===== src/Libfuncs/Cast/Represent.antt =====
-- From the source representation of a cast to the integer, and from it to the target: the steps of
-- a downcast, and how the counter moves.
use cairo_native.Prelude.{
  ℕ, ◌+◌, ◌^◌, ◌%◌, ◌≡◌, ◌≤◌, ◌<◌, ◌∙◌, sym, ap, refl, Bool, true, false, ltb, arith, Option, some,
  none, if◌then◌else◌, ◌&&◌, not, Bool-cases, inl, inr,
}
use cairo_native.Prelude.Int.{ℤ, pos, ◌-ℤ◌, ltb_ℤ, eqb_ℤ, eq_of_parts, int_laws}
use cairo_native.Error.{ok, Result, ◌>>=◌}
use cairo_native.Num.Wrap.{wrap}
use cairo_native.Mlir.{Mlir, IsMlir}
use cairo_native.Mlir.Laws.{addi-wrap, subi-wrap, trunci-wrap}
use cairo_native.Utils.RangeExt.{Range, repr_bit_width}
use cairo_native.Utils.RangeExt.Laws.{InRange}
use cairo_native.Types.{CoreTypeConcrete}
use cairo_native.Types.Integer.{is_bounded_int}
use cairo_native.Libfuncs.Counter.{
  increment_builtin_counter_by_lem, increment_builtin_counter_conditionally_by,
  increment_builtin_counter_conditionally_by_lem,
}
use cairo_native.Libfuncs.BoundedInt.Operand.{repr_bias}
use cairo_native.Libfuncs.BoundedInt.Stored.{IsInteger, Shape, stored}
use cairo_native.Libfuncs.Cast.Build.{extend_source, correct_source, count_checks, represent_target}
use cairo_native.Libfuncs.Cast.Widths.{Holds, repr_bit_width-le_zero_based, const_int-lower}
use cairo_native.Libfuncs.Cast.Upcast.{is_felt252-IsInteger, extended-stored}

pub and_true : (b : Bool) → (b && true) ≡ b
and_true true = refl
and_true false = refl

and_false : (b : Bool) → (b && false) ≡ false
and_false true = refl
and_false false = refl

no_bias : (a k : ℤ) → k ≡ pos 0 → a -ℤ k ≡ a
no_bias a k e = ap (λ z. a -ℤ z) e ∙ omega int_laws

eqb_zero : (a : ℤ) → eqb_ℤ a (pos 0) ≡ true → a ≡ pos 0
eqb_zero a h = eq_of_parts a (pos 0) (ground (arith, h))

module _ {m : Mlir} (laws : IsMlir m) (t : CoreTypeConcrete) (r : Range) (w : ℕ) (a : ℤ)
    (t_int : IsInteger t) (s : Shape (is_bounded_int t) r) where
  -- The source value in the width of the computation is the word of its integer.
  pub correct_source-wrap :
      Holds r w
      → InRange a r
      → correct_source m t r w (extend_source m t r w (stored t r a)) ≡ ok (wrap w a)
  unfolding correct_source extend_source repr_bias
  correct_source-wrap h a_in =
      let le : repr_bit_width r ≤ w =
        omega (arith, repr_bit_width-le_zero_based r h.not_empty, h.width_le) in
      rw
        (
          is_felt252-IsInteger t t_int,
          and_true (ltb_ℤ r.lower (pos 0) && not (is_bounded_int t)),
          and_false (ltb_ℤ r.lower (pos 0)),
          extended-stored laws t r w a s a_in le,
        )
        (elim (Bool-cases (is_bounded_int t)) [
          | inl e ↦ elim (Bool-cases (eqb_ℤ r.lower (pos 0))) [
            | inl f ↦ rw (e, f) (ap (λ z. ok (wrap w z)) (no_bias a r.lower (eqb_zero r.lower f)))
            | inr f ↦
                rw (e, f, const_int-lower laws r w h, addi-wrap laws w (a -ℤ r.lower) r.lower)
                  (ap (λ z. ok (wrap w z)) (omega int_laws))
          ]
          | inr e ↦ rw e (ap (λ z. ok (wrap w z)) (omega int_laws))
        ])

  biased_word :
      Holds r w
      → (if is_bounded_int t && not (eqb_ℤ r.lower (pos 0))
          then m.const_int w r.lower >>= (λ dst_offset. ok (m.subi w (wrap w a) dst_offset))
          else ok (wrap w a))
        ≡ ok (wrap w (a -ℤ repr_bias t r))
  unfolding repr_bias
  biased_word h = elim (Bool-cases (is_bounded_int t)) [
    | inl e ↦ elim (Bool-cases (eqb_ℤ r.lower (pos 0))) [
      | inl f ↦ rw (e, f) (ap (λ z. ok (wrap w z)) (sym (no_bias a r.lower (eqb_zero r.lower f))))
      | inr f ↦ rw (e, f, const_int-lower laws r w h, subi-wrap laws w a r.lower)
    ]
    | inr e ↦ rw e (ap (λ z. ok (wrap w z)) (omega int_laws))
  ]

  -- From the word of an integer to its pattern in the target type.
  pub represent_target-stored :
      (r' : Range) → Holds r w → represent_target m t r r' w w (wrap w a) ≡ ok (stored t r a)
  unfolding represent_target
  represent_target-stored r' h =
      let le : repr_bit_width r ≤ w =
        omega (arith, repr_bit_width-le_zero_based r h.not_empty, h.width_le) in
      rw (is_felt252-IsInteger t t_int, biased_word h)
        (elim (Bool-cases (ltb (repr_bit_width r) w)) [
          | inl less ↦ rw (less, trunci-wrap laws w (repr_bit_width r) (a -ℤ repr_bias t r) le)
          | inr same ↦
              let e : repr_bit_width r ≡ w = ground (arith, le, same) in
              rw same (ap (λ n. ok (wrap n (a -ℤ repr_bias t r))) (sym e))
        ])

-- The counter after the checks.
pub record Counted (x : Result ℕ) : Type 0 where
  pub value : ℕ
  pub value_eq : x ≡ ok value
  pub value_lt : value < 2 ^ 64

module _ {m : Mlir} (laws : IsMlir m) where
  count_checks-Counted :
      (lower upper : Option Bool) (c : ℕ) → c < 2 ^ 64 → Counted (count_checks m lower upper c)
  unfolding count_checks
  count_checks-Counted none none c h = record { value = c; value_eq = refl; value_lt = h }
  count_checks-Counted (some x) none c h = record {
    value = (c + 1) % 2 ^ 64;
    value_eq = increment_builtin_counter_by_lem laws c 1 h (omega arith);
    value_lt = omega arith;
  }
  count_checks-Counted none (some y) c h = record {
    value = (c + 1) % 2 ^ 64;
    value_eq = increment_builtin_counter_by_lem laws c 1 h (omega arith);
    value_lt = omega arith;
  }
  count_checks-Counted (some x) (some y) c h = record {
    value = (c + (if x && y then 2 else 1)) % 2 ^ 64;
    value_eq =
        increment_builtin_counter_conditionally_by_lem laws c 2 1 (x && y) h (omega arith)
          (omega arith);
    value_lt = omega arith;
  }

  pub counted :
      (full : Bool) (lower upper : Option Bool) (more : ℕ) (inside : Bool) (c : ℕ)
      → more < 2 ^ 64
      → c < 2 ^ 64
      → Counted (
          if full
          then increment_builtin_counter_conditionally_by m c more 3 inside
          else count_checks m lower upper c)
  counted true lower upper more inside c k h = record {
    value = (c + (if inside then more else 3)) % 2 ^ 64;
    value_eq =
        increment_builtin_counter_conditionally_by_lem laws c more 3 inside h k (omega arith);
    value_lt = omega arith;
  }
  counted false lower upper more inside c k h = count_checks-Counted lower upper c h

-- ===== src/Refine/BoundedInt/Branches.antt =====
-- Agreement on the operations that branch on the value of an integer.
use cairo_native.Prelude.{
  ℕ, ◌+◌, ◌^◌, ◌%◌, ◌≡◌, ◌≢◌, ◌<◌, refl, ◌∙◌, [], ◌∷◌, Option, arith, Bool-cases, inl, inr, ◌==◌,
  if◌then◌else◌,
}
use cairo_native.Prelude.Int.{ℤ, pos, ◌<ℤ◌, ltb_ℤ, eqb_ℤ}
use cairo_native.Error.{ok}
use cairo_native.Mlir.{Mlir, IsMlir}
use cairo_native.Utils.RangeExt.{Range}
use cairo_native.Utils.RangeExt.Laws.{InRange}
use cairo_native.Types.{CoreTypeConcrete, bounded_int, range_check, non_zero}
use cairo_native.Types.Integer.{integer_range}
use cairo_native.Sierra.{constrain, trim, is_zero}
use cairo_native.Libfuncs.BoundedInt.Arith.{DivRemAlgorithm}
use cairo_native.Libfuncs.BoundedInt.Select.{build}
use cairo_native.Libfuncs.BoundedInt.Stored.{stored}
use cairo_native.Libfuncs.BoundedInt.Products.{Within}
use cairo_native.Libfuncs.BoundedInt.Branches.{
  below, above, build_constrain-stored, build_trim-stored, build_is_zero-stored, ltb_ℤ→lt, ltb_ℤ→ge,
  ne_of_eqb,
}
use cairo_native.Emu.Value.{Value, unit}
use cairo_native.Emu.Numbers.{numeric_arg}
use cairo_native.Emu.BoundedInt.{
  eval, eval_constrain, eval_trim, eval_is_zero, result_range, plain_range, trim_arg,
}
use cairo_native.Refine.Remade.{non_zero-value, non_zero-Encodes, get_value_from_integer-Remade}
use cairo_native.Refine.Encodes.{
  Encodes, Agree, agree, counter, Encodes-Number, bounded_int-Encodes,
}

module _ {m : Mlir} (laws : IsMlir m) (try_new : Range → Range → Option DivRemAlgorithm)
    (src : CoreTypeConcrete) {r : Range} (r_eq : integer_range src ≡ ok r) {v : Value} {p : ℕ}
    (v_enc : Encodes src v p) where
  -- On the counter and a pattern and a value of an integer type that stand for the same
  -- integer, and a boundary strictly inside the range of the type, the code for
  -- `bounded_int_constrain` jumps to the branch that the interpreter takes, with the counter
  -- and a pattern for the interpreter's result in the part of the range of that branch.
  pub constrain-Agree :
      (k : ℤ) (c : ℕ)
      → c < 2 ^ 64
      → r.lower <ℤ k
      → k <ℤ r.upper
      → Agree
          (λ i.
            range_check
            ∷ (if i == 0 then bounded_int (below r k) else bounded_int (above r k))
            ∷ [])
          (eval
            (constrain src (bounded_int (below r k)) (bounded_int (above r k)) k)
            (unit ∷ v ∷ []))
          (build m try_new
            (constrain src (bounded_int (below r k)) (bounded_int (above r k)) k)
            (c ∷ p ∷ []))
  unfolding build eval eval_constrain result_range
  constrain-Agree k c c_lt low high =
      let x = Encodes-Number src r_eq v_enc in
      let a = x.value in
      let code = build_constrain-stored laws src a x.is_integer r_eq x.in_range k c c_lt low high in
      let count : (c + 1) % 2 ^ 64 < 2 ^ 64 = omega arith in
      elim (Bool-cases (ltb_ℤ a k)) [
        | inl less ↦
            agree 0 (unit ∷ Value.bounded_int (below r k) a ∷ [])
              ((c + 1) % 2 ^ 64 ∷ stored (bounded_int (below r k)) (below r k) a ∷ [])
              (rw (x.numeric, less)) (rw x.pattern_eq (code ∙ rw less))
              (
                counter refl refl count,
                (bounded_int-Encodes (below r k) a (x.in_range.0, ltb_ℤ→lt a k less), tt),
              )
        | inr more ↦
            agree 1 (unit ∷ Value.bounded_int (above r k) a ∷ [])
              ((c + 1) % 2 ^ 64 ∷ stored (bounded_int (above r k)) (above r k) a ∷ [])
              (rw (x.numeric, more)) (rw x.pattern_eq (code ∙ rw more))
              (
                counter refl refl count,
                (bounded_int-Encodes (above r k) a (ltb_ℤ→ge a k more, x.in_range.1), tt),
              )
      ]

  -- On a pattern and a value, neither a felt nor a `bytes31`, of an integer type that stand for
  -- the same integer, a trimmed integer of the range of the type, and a `BoundedInt` inside that
  -- range that is not empty and holds every other integer of it, the code for
  -- `bounded_int_trim` jumps to the branch that the interpreter takes, with a pattern for the
  -- interpreter's result.
  pub trim-Agree :
      (k : ℤ) (d : Range)
      → trim_arg v ≡ numeric_arg v
      → InRange k r
      → Within d r
      → ((a : ℤ) → InRange a r → a ≢ k → InRange a d)
      → d.lower <ℤ d.upper
      → Agree
          (λ i. if i == 0 then [] else bounded_int d ∷ [])
          (eval (trim src (bounded_int d) k) (v ∷ []))
          (build m try_new (trim src (bounded_int d) k) (p ∷ []))
  unfolding build eval eval_trim plain_range
  trim-Agree k d numeric k_in d_in others full =
      let x = Encodes-Number src r_eq v_enc in
      let a = x.value in
      let keep = others a x.in_range in
      let code =
        build_trim-stored laws src a x.is_integer r_eq x.in_range k d k_in d_in keep full in
      let value = numeric ∙ x.numeric in
      elim (Bool-cases (eqb_ℤ a k)) [
        | inl same ↦ agree 0 [] [] (rw (value, same)) (rw x.pattern_eq (code ∙ rw same)) tt
        | inr other ↦
            agree 1 (Value.bounded_int d a ∷ []) (stored (bounded_int d) d a ∷ [])
              (rw (value, other)) (rw x.pattern_eq (code ∙ rw other))
              (bounded_int-Encodes d a (keep (ne_of_eqb a k other)), tt)
      ]

  -- On a pattern and a value of an integer type that stand for the same integer, where the
  -- range of the type holds zero, the code for `bounded_int_is_zero` jumps to the branch that
  -- the interpreter takes, and hands on the pattern of the value, now of the `NonZero` type,
  -- that the interpreter makes anew from the integer.
  is_zero-Agree :
      InRange (pos 0) r
      → Agree
          (λ i. if i == 0 then [] else non_zero src ∷ [])
          (eval (is_zero src (non_zero src)) (v ∷ []))
          (build m try_new (is_zero src (non_zero src)) (p ∷ []))
  unfolding build eval eval_is_zero
  is_zero-Agree zero_in =
      let x = Encodes-Number src r_eq v_enc in
      let a = x.value in
      let code = build_is_zero-stored laws src a x.is_integer r_eq x.in_range zero_in in
      let remade = get_value_from_integer-Remade src a x.is_integer r_eq x.in_range in
      elim (Bool-cases (eqb_ℤ a (pos 0))) [
        | inl same ↦ agree 0 [] [] (rw (x.numeric, same)) (rw x.pattern_eq (code ∙ rw same)) tt
        | inr other ↦
            agree 1 (remade.value ∷ []) (stored src r a ∷ [])
              (rw (x.numeric, other, non_zero-value, remade.value_eq))
              (rw x.pattern_eq (code ∙ rw other))
              (non_zero-Encodes src r_eq x.is_integer remade.numeric x.in_range, tt)
      ]

-- ===== src/Refine/Sint/Operation.antt =====
-- Overflowing addition and subtraction on the signed integer types: the emitted code against
-- debug_utils/sierra-emu's vm/int.rs.
use cairo_native.Prelude.{
  ℕ, suc, ◌+◌, ◌^◌, ◌%◌, ◌≡◌, ◌<◌, refl, ap, ◌∙◌, arith, false, some, none, if◌then◌else◌,
  Bool-cases, inl, inr, [], ◌∷◌, Option,
}
use cairo_native.Prelude.Int.{ℤ, pos, ltb_ℤ, ◌≤ℤ◌, ◌<ℤ◌}
use cairo_native.Error.{ok, err, Result}
use cairo_native.Num.Wrap.{wrap, wrap-lt}
use cairo_native.Mlir.{Mlir, IsMlir, signed}
use cairo_native.Utils.RangeExt.{Range}
use cairo_native.Utils.RangeExt.Laws.{InRange}
use cairo_native.Types.{CoreTypeConcrete, range_check}
use cairo_native.Sierra.{IntOperator, exact}
use cairo_native.Libfuncs.Counter.{Jump}
use cairo_native.Libfuncs.BoundedInt.Branches.{lt→ltb_ℤ}
use cairo_native.Libfuncs.Int.Operation.{build_operation, is_i128}
use cairo_native.Libfuncs.Int.Overflow.{signed_bounds, build_operation-signed, leb_of_ltb}
use cairo_native.Emu.Value.{Value, EvalAction, normal_branch, unit}
use cairo_native.Emu.Numbers.{numeric_arg}
use cairo_native.Emu.Int.{eval_operation}
use cairo_native.Refine.Encodes.{Agree, agree, counter}
use cairo_native.Refine.Remade.{get_value_from_integer-Remade}
use cairo_native.Refine.Sint.{
  IsSigned, magnitude_width, IsSigned-Signed, signed-InRange, wrapped-Encodes,
  eval_operation-wrapped,
}

count-lt : (r : Range) (c : ℕ) → (if is_i128 r then (c + 1) % 2 ^ 64 else (c + 2) % 2 ^ 64) < 2 ^ 64
count-lt r c = elim (Bool-cases (is_i128 r)) [
  | inl e ↦ rw e (omega arith)
  | inr e ↦ rw e (omega arith)
]

ge→ltb_ℤ : (a b : ℤ) → b ≤ℤ a → ltb_ℤ a b ≡ false
ge→ltb_ℤ a b h = ground arith

-- The branch that is taken.
abbrev pub branch_of : Option EvalAction → Option ℕ
branch_of (some (normal_branch i vs)) = some i
branch_of _ = none

abbrev pub jump_of : Result Jump → Option ℕ
jump_of (ok (i, ps)) = some i
jump_of (err e) = none

module _ {m : Mlir} (laws : IsMlir m) (t : CoreTypeConcrete) (signed_t : IsSigned t)
    (op : IntOperator) (c : ℕ) (c_lt : c < 2 ^ 64) (x y : Value) (a b : ℤ)
    (x_eq : numeric_arg x ≡ some a) (y_eq : numeric_arg y ≡ some b)
    (a_in : InRange a (signed_bounds (magnitude_width t)))
    (b_in : InRange b (signed_bounds (magnitude_width t))) where
  -- For two integers of a signed type whose exact sum or difference is not above the range of
  -- the type, the code for an overflowing addition or subtraction on their words jumps to the
  -- branch that the interpreter takes, with the counter and a pattern for the integer that the
  -- interpreter wraps around to.
  pub sint_operation-Agree :
      exact op a b <ℤ pos (2 ^ magnitude_width t)
      → Agree
          (λ i. range_check ∷ t ∷ [])
          (eval_operation t op (unit ∷ x ∷ y ∷ []))
          (build_operation m t op c
            (wrap (suc (magnitude_width t)) a)
            (wrap (suc (magnitude_width t)) b))
  sint_operation-Agree fits =
      let v = magnitude_width t in
      let r = signed_bounds v in
      let s = IsSigned-Signed t signed_t in
      let z = exact op a b in
      let word = wrap (suc v) z in
      let remade =
        get_value_from_integer-Remade t (signed (suc v) word) s.is_integer s.range_eq
          (signed-InRange v word (wrap-lt (suc v) z)) in
      let ran = eval_operation-wrapped t s op x y a b x_eq y_eq a_in b_in remade.value_eq in
      let code = build_operation-signed laws t v s.range_eq s.width_eq a b a_in b_in c c_lt op in
      let result = wrapped-Encodes t s z remade.numeric in
      let count = if is_i128 r then (c + 1) % 2 ^ 64 else (c + 2) % 2 ^ 64 in
      let vs = unit ∷ remade.value ∷ [] in
      let below_upper = lt→ltb_ℤ z r.upper fits in
      elim (Bool-cases (ltb_ℤ z r.lower)) [
        | inl low ↦
            agree 1 vs ((c + 1) % 2 ^ 64 ∷ word ∷ []) (ran ∙ rw (leb_of_ltb r.lower z, low))
              (code ∙ rw low) (counter refl refl (omega arith), (result, tt))
        | inr inside ↦
            agree 0 vs (count ∷ word ∷ []) (ran ∙ rw (leb_of_ltb r.lower z, inside, below_upper))
              (code ∙ rw (inside, below_upper)) (counter refl refl (count-lt r c), (result, tt))
      ]

  -- For two integers of a signed type whose exact sum or difference is above the range of the
  -- type, the interpreter takes branch 1 and the code jumps to branch 2.
  pub sint_operation-above :
      pos (2 ^ magnitude_width t) ≤ℤ exact op a b
      → (branch_of (eval_operation t op (unit ∷ x ∷ y ∷ [])) ≡ some 1)
        × (jump_of (
              build_operation m t op c
                (wrap (suc (magnitude_width t)) a)
                (wrap (suc (magnitude_width t)) b))
            ≡ some 2)
  sint_operation-above over =
      let v = magnitude_width t in
      let r = signed_bounds v in
      let s = IsSigned-Signed t signed_t in
      let z = exact op a b in
      let word = wrap (suc v) z in
      let remade =
        get_value_from_integer-Remade t (signed (suc v) word) s.is_integer s.range_eq
          (signed-InRange v word (wrap-lt (suc v) z)) in
      let ran = eval_operation-wrapped t s op x y a b x_eq y_eq a_in b_in remade.value_eq in
      let code = build_operation-signed laws t v s.range_eq s.width_eq a b a_in b_in c c_lt op in
      let high = ge→ltb_ℤ z r.upper over in
      let low = ge→ltb_ℤ z r.lower (omega (arith, over)) in
      (ap branch_of ran ∙ rw (leb_of_ltb r.lower z, low, high), ap jump_of code ∙ rw (low, high))

-- ===== src/Refine/Bool.antt =====
-- Booleans in the interpreter and in the compiled code.
use cairo_native.Prelude.{ℕ, zero, suc, ◌≡◌, ◌<◌, refl, arith, Option, some, List, [], ◌∷◌}
use cairo_native.Num.Bits.{bits}
use cairo_native.Error.{Result, ok}
use cairo_native.Mlir.{Mlir, IsMlir}
use cairo_native.Types.{CoreTypeConcrete, nil, cons, enum_type}
use cairo_native.Libfuncs.Counter.{Jump}
use cairo_native.Libfuncs.Bool.{
  BoolOp, and, xor, or, build_bool_binary, build_bool_not, build_bool_to_felt252, tag_width,
  new_tag_value,
}
use cairo_native.Emu.Value.{Value, EvalAction, normal_branch, enum_value}
use cairo_native.Emu.Bool.{
  eval_and, eval_or, eval_xor, eval_not, eval_bool_to_felt252, eval_bool_operator,
}

-- Both go on in branch 0: the interpreter with an enumeration, the code with its tag.
pub record SameTag (ty : CoreTypeConcrete) (payload : Value) (e : Option EvalAction)
    (j : Result Jump) : Type 0 where
  pub tag : ℕ
  pub tag_lt : tag < 2
  pub interpreted : e ≡ some (normal_branch 0 (enum_value ty tag payload ∷ []))
  pub compiled : j ≡ ok (0, tag ∷ [])

same_tag :
    {ty : CoreTypeConcrete} {payload : Value} {e : Option EvalAction} {j : Result Jump} (tag : ℕ)
    → tag < 2
    → e ≡ some (normal_branch 0 (enum_value ty tag payload ∷ []))
    → j ≡ ok (0, tag ∷ [])
    → SameTag ty payload e j
same_tag tag h e j = record { tag = tag; tag_lt = h; interpreted = e; compiled = j }

-- The handler of an operator.
abbrev pub eval_operator : BoolOp → List Value → Option EvalAction
eval_operator and = eval_and
eval_operator xor = eval_xor
eval_operator or = eval_or

abbrev pub bool_of : CoreTypeConcrete → CoreTypeConcrete → CoreTypeConcrete
bool_of s t = enum_type (cons s (cons t nil))

module _ {m : Mlir} (laws : IsMlir m) (s t : CoreTypeConcrete) (payload other : Value) where
  binary-SameTag :
      (op : BoolOp) (x y : ℕ)
      → x < 2
      → y < 2
      → SameTag
          (bool_of s t)
          payload
          (eval_operator op
            (enum_value (bool_of s t) x payload ∷ enum_value (bool_of s t) y other ∷ []))
          (build_bool_binary m (bool_of s t) op (x ∷ y ∷ []))
  unfolding build_bool_binary new_tag_value tag_width bits eval_bool_operator
  binary-SameTag and zero zero h k =
      same_tag 0 (omega arith) refl (rw (laws.andi_lem 1 0 0 h k) refl)
  binary-SameTag and zero (suc zero) h k =
      same_tag 0 (omega arith) refl (rw (laws.andi_lem 1 0 1 h k) refl)
  binary-SameTag and (suc zero) zero h k =
      same_tag 0 (omega arith) refl (rw (laws.andi_lem 1 1 0 h k) refl)
  binary-SameTag and (suc zero) (suc zero) h k =
      same_tag 1 (omega arith) refl (rw (laws.andi_lem 1 1 1 h k) refl)
  binary-SameTag xor zero zero h k =
      same_tag 0 (omega arith) refl (rw (laws.xori_lem 1 0 0 h k) refl)
  binary-SameTag xor zero (suc zero) h k =
      same_tag 1 (omega arith) refl (rw (laws.xori_lem 1 0 1 h k) refl)
  binary-SameTag xor (suc zero) zero h k =
      same_tag 1 (omega arith) refl (rw (laws.xori_lem 1 1 0 h k) refl)
  binary-SameTag xor (suc zero) (suc zero) h k =
      same_tag 0 (omega arith) refl (rw (laws.xori_lem 1 1 1 h k) refl)
  binary-SameTag or zero zero h k = same_tag 0 (omega arith) refl (rw (laws.ori_lem 1 0 0 h k) refl)
  binary-SameTag or zero (suc zero) h k =
      same_tag 1 (omega arith) refl (rw (laws.ori_lem 1 0 1 h k) refl)
  binary-SameTag or (suc zero) zero h k =
      same_tag 1 (omega arith) refl (rw (laws.ori_lem 1 1 0 h k) refl)
  binary-SameTag or (suc zero) (suc zero) h k =
      same_tag 1 (omega arith) refl (rw (laws.ori_lem 1 1 1 h k) refl)
  binary-SameTag op (suc (suc x)) y h k = absurd (omega (arith, h))
  binary-SameTag op zero (suc (suc y)) h k = absurd (omega (arith, k))
  binary-SameTag op (suc zero) (suc (suc y)) h k = absurd (omega (arith, k))

  not-SameTag :
      (x : ℕ)
      → x < 2
      → SameTag
          (bool_of s t)
          payload
          (eval_not (enum_value (bool_of s t) x payload ∷ []))
          (build_bool_not m (bool_of s t) (x ∷ []))
  unfolding build_bool_not tag_width bits eval_not
  not-SameTag zero h =
      same_tag 1 (omega arith) refl
        (rw (laws.const_int_pos 1 1 (omega arith), laws.xori_lem 1 0 1 h (omega arith)) refl)
  not-SameTag (suc zero) h =
      same_tag 0 (omega arith) refl
        (rw (laws.const_int_pos 1 1 (omega arith), laws.xori_lem 1 1 1 h (omega arith)) refl)
  not-SameTag (suc (suc x)) h = absurd (omega (arith, h))

  -- On Booleans, which are enumerations of two variants with the tags 0 and 1, the code for a
  -- conjunction, an exclusive or inclusive disjunction and a negation gives the tag of the
  -- interpreter's result, and both turn a Boolean into the same felt, which is its tag.
  pub bool-SameTag :
      (op : BoolOp) (x y : ℕ)
      → x < 2
      → y < 2
      → SameTag
          (bool_of s t)
          payload
          (eval_operator op
            (enum_value (bool_of s t) x payload ∷ enum_value (bool_of s t) y other ∷ []))
          (build_bool_binary m (bool_of s t) op (x ∷ y ∷ []))
        × SameTag
            (bool_of s t)
            payload
            (eval_not (enum_value (bool_of s t) x payload ∷ []))
            (build_bool_not m (bool_of s t) (x ∷ []))
        × (eval_bool_to_felt252 (enum_value (bool_of s t) x payload ∷ [])
            ≡ some (normal_branch 0 (Value.felt x ∷ [])))
        × (build_bool_to_felt252 m (bool_of s t) (x ∷ []) ≡ ok (0, x ∷ []))
  unfolding build_bool_to_felt252 tag_width bits eval_bool_to_felt252
  bool-SameTag op x y h k = (
    binary-SameTag op x y h k,
    not-SameTag x h,
    refl,
    rw (laws.extui_lem 1 252 x (omega arith) h) refl,
  )

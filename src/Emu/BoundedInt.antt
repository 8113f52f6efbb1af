-- ===== src/Emu/BoundedInt.antt =====
-- debug_utils/sierra-emu/src/vm/bounded_int.rs: the library functions on bounded integers, on the
-- integers themselves. An operation takes the types of its signature, then its arguments.
use cairo_native.Prelude.{
  ℕ, ◌/◌, ◌%◌, ◌^◌, Option, none, some, List, [], ◌∷◌, Bool, ◌&&◌, if◌then◌else◌,
}
use cairo_native.Prelude.Int.{ℤ, pos, negsuc, ◌+ℤ◌, ◌-ℤ◌, ◌*ℤ◌, neg_ℤ, ltb_ℤ, leb_ℤ, eqb_ℤ}
use cairo_native.Utils.RangeExt.{Range}
use cairo_native.Types.{CoreTypeConcrete, non_zero}
use cairo_native.Types.Integer.{unsigned_range}
use cairo_native.Sierra.{
  BoundedIntConcreteLibfunc, add, sub, mul, div_rem, constrain, trim, is_zero, wrap_non_zero,
  guarantee_verify, u128_to_u32_guarantees,
}
use cairo_native.Emu.Panic.{◌>>=◌, ◌>>◌, assert}
use cairo_native.Emu.Value.{Value, EvalAction, normal_branch, unit}
use cairo_native.Emu.Numbers.{numeric_arg, get_value_from_integer}

-- The range of a result type, which is a `BoundedInt` or a `NonZero` of one.
unfoldable pub result_range : CoreTypeConcrete → Option Range
result_range (CoreTypeConcrete.bounded_int r) = some r
result_range (non_zero (CoreTypeConcrete.bounded_int r)) = some r
result_range _ = none

-- The range of a type that must be a `BoundedInt` itself.
unfoldable pub plain_range : CoreTypeConcrete → Option Range
plain_range (CoreTypeConcrete.bounded_int r) = some r
plain_range _ = none

-- An operator on two numeric arguments, with a bounded result.
unfoldable pub eval_binary : (ℤ → ℤ → ℤ) → CoreTypeConcrete → List Value → Option EvalAction
unfolding numeric_arg result_range
eval_binary op dst (x ∷ y ∷ []) = do
  lhs ← numeric_arg x
  rhs ← numeric_arg y
  range ← result_range dst
  some (normal_branch 0 (Value.bounded_int range (op lhs rhs) ∷ []))
eval_binary op dst _ = none

unfoldable pub eval_add : CoreTypeConcrete → List Value → Option EvalAction
unfolding eval_binary
eval_add = eval_binary ◌+ℤ◌

unfoldable pub eval_sub : CoreTypeConcrete → List Value → Option EvalAction
unfolding eval_binary
eval_sub = eval_binary ◌-ℤ◌

unfoldable pub eval_mul : CoreTypeConcrete → List Value → Option EvalAction
unfolding eval_binary
eval_mul = eval_binary ◌*ℤ◌

-- Division of integers truncates towards zero, and the rest has the sign of the dividend.
abbrev pub tdiv : ℤ → ℤ → Option ℤ
tdiv a (pos ℕ.zero) = none
tdiv (pos m) (pos (ℕ.suc n)) = some (pos (m / ℕ.suc n))
tdiv (negsuc m) (pos (ℕ.suc n)) = some (neg_ℤ (pos (ℕ.suc m / ℕ.suc n)))
tdiv (pos m) (negsuc n) = some (neg_ℤ (pos (m / ℕ.suc n)))
tdiv (negsuc m) (negsuc n) = some (pos (ℕ.suc m / ℕ.suc n))

abbrev pub trem : ℤ → ℤ → Option ℤ
trem a (pos ℕ.zero) = none
trem (pos m) (pos (ℕ.suc n)) = some (pos (m % ℕ.suc n))
trem (negsuc m) (pos (ℕ.suc n)) = some (neg_ℤ (pos (ℕ.suc m % ℕ.suc n)))
trem (pos m) (negsuc n) = some (pos (m % ℕ.suc n))
trem (negsuc m) (negsuc n) = some (neg_ℤ (pos (ℕ.suc m % ℕ.suc n)))

abbrev pub contains : Range → ℤ → Bool
contains r a = leb_ℤ r.lower a && ltb_ℤ a r.upper

unfoldable pub eval_div_rem : (div rem : CoreTypeConcrete) → List Value → Option EvalAction
unfolding numeric_arg plain_range
eval_div_rem div rem (unit ∷ x ∷ y ∷ []) = do
  lhs ← numeric_arg x
  rhs ← numeric_arg y
  quo ← tdiv lhs rhs
  rest ← trem lhs rhs
  quo_range ← plain_range div
  rem_range ← plain_range rem
  assert (contains quo_range quo)
  assert (contains rem_range rest)
  some (
      normal_branch 0
        (unit ∷ Value.bounded_int quo_range quo ∷ Value.bounded_int rem_range rest ∷ []))
eval_div_rem div rem _ = none

unfoldable pub eval_constrain :
    (lower upper : CoreTypeConcrete) → ℤ → List Value → Option EvalAction
unfolding numeric_arg result_range
eval_constrain lower upper boundary (unit ∷ x ∷ []) = do
  value ← numeric_arg x
  if ltb_ℤ value boundary
      then (do
        range ← result_range lower
        some (normal_branch 0 (unit ∷ Value.bounded_int range value ∷ [])))
      else (do
        range ← result_range upper
        some (normal_branch 1 (unit ∷ Value.bounded_int range value ∷ [])))
eval_constrain lower upper boundary _ = none

unfoldable pub eval_is_zero : CoreTypeConcrete → List Value → Option EvalAction
unfolding numeric_arg get_value_from_integer
eval_is_zero int_ty (x ∷ []) = do
  value ← numeric_arg x
  if eqb_ℤ value (pos 0)
      then some (normal_branch 0 [])
      else (do same ← get_value_from_integer int_ty value; some (normal_branch 1 (same ∷ [])))
eval_is_zero int_ty _ = none

-- A felt is no integer here.
unfoldable pub trim_arg : Value → Option ℤ
unfolding numeric_arg
trim_arg (Value.felt n) = none
trim_arg (Value.bytes31 n) = none
trim_arg v = numeric_arg v

unfoldable pub eval_trim : CoreTypeConcrete → ℤ → List Value → Option EvalAction
unfolding trim_arg plain_range
eval_trim dst trimmed (x ∷ []) = do
  value ← trim_arg x
  range ← plain_range dst
  if eqb_ℤ value trimmed
      then some (normal_branch 0 [])
      else some (normal_branch 1 (Value.bounded_int range value ∷ []))
eval_trim dst trimmed _ = none

unfoldable pub eval_wrap_non_zero : List Value → Option EvalAction
eval_wrap_non_zero (value ∷ []) = some (normal_branch 0 (value ∷ []))
eval_wrap_non_zero _ = none

unfoldable pub eval_guarantee_verify : List Value → Option EvalAction
eval_guarantee_verify (unit ∷ args) = some (normal_branch 0 (unit ∷ []))
eval_guarantee_verify _ = none

-- `(value >> shift) as u32`, as a bounded integer.
abbrev pub limb : ℕ → ℕ → Value
limb value shift = Value.bounded_int (unsigned_range 32) (pos (value / 2 ^ shift % 2 ^ 32))

unfoldable pub eval_u128_to_u32_guarantees : List Value → Option EvalAction
eval_u128_to_u32_guarantees (Value.u128 value ∷ []) =
    some (normal_branch 0 (limb value 0 ∷ limb value 32 ∷ limb value 64 ∷ limb value 96 ∷ []))
eval_u128_to_u32_guarantees _ = none

-- `eval`: the interpreter's handler of a library function.
unfoldable pub eval : BoundedIntConcreteLibfunc → List Value → Option EvalAction
eval (add l r d) args = eval_add d args
eval (sub l r d) args = eval_sub d args
eval (mul l r d) args = eval_mul d args
eval (div_rem l r q e) args = eval_div_rem q e args
eval (constrain s l u k) args = eval_constrain l u k args
eval (is_zero s d) args = eval_is_zero d args
eval (wrap_non_zero s) args = eval_wrap_non_zero args
eval (trim s d k) args = eval_trim d k args
eval guarantee_verify args = eval_guarantee_verify args
eval u128_to_u32_guarantees args = eval_u128_to_u32_guarantees args

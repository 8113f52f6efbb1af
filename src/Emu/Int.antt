-- ===== src/Emu/Int.antt =====
-- debug_utils/sierra-emu/src/vm/int.rs: the library functions on the plain integer types. A
-- handler takes the types of its signature that it reads, then its arguments.
use cairo_native.Prelude.{
  ℕ, ◌-◌, ◌*◌, ◌/◌, ◌%◌, ◌^◌, Option, none, some, List, [], ◌∷◌, Bool, true, false, ◌&&◌, not, ltb,
  if◌then◌else◌,
}
use cairo_native.Prelude.Int.{ℤ, pos, ◌+ℤ◌, ◌-ℤ◌, ◌*ℤ◌, neg_ℤ, ltb_ℤ, leb_ℤ, eqb_ℤ}
use cairo_native.Num.Wrap.{wrap}
use cairo_native.Mlir.{signed}
use cairo_native.Utils.RangeExt.{Range}
use cairo_native.Types.{
  CoreTypeConcrete, uint8, uint16, uint32, uint64, uint128, sint8, sint16, sint32, sint64, sint128,
}
use cairo_native.Types.Integer.{prime, signed_range, unsigned_range}
use cairo_native.Sierra.{IntOperator, exact}
use cairo_native.Emu.Panic.{◌>>=◌, ◌>>◌, assert}
use cairo_native.Emu.Value.{Value, EvalAction, normal_branch, unit}
use cairo_native.Emu.Numbers.{numeric_arg, get_value_from_integer, emu_integer_range, felt_of}
use cairo_native.Emu.BoundedInt.{tdiv, trem}

abbrev pub within : Range → ℤ → Bool
within r a = leb_ℤ r.lower a && ltb_ℤ a r.upper

-- The inner function `overflowing_op`, at a signed and at an unsigned type of `w` bits.
abbrev pub overflowing_op : Bool → ℕ → ℤ → ℤ → IntOperator → Option (ℤ × Bool)
overflowing_op true w lhs rhs op = do
  assert (within (signed_range w) lhs)
  assert (within (signed_range w) rhs)
  let result = exact op lhs rhs
  some (signed w (wrap w result), not (within (signed_range w) result))
overflowing_op false w lhs rhs op = do
  assert (within (unsigned_range w) lhs)
  assert (within (unsigned_range w) rhs)
  let result = exact op lhs rhs
  some (pos (wrap w result), not (within (unsigned_range w) result))

unfoldable pub apply_overflowing_op_for_type :
    CoreTypeConcrete → ℤ → ℤ → IntOperator → Option (ℤ × Bool)
apply_overflowing_op_for_type sint8 lhs rhs op = overflowing_op true 8 lhs rhs op
apply_overflowing_op_for_type sint16 lhs rhs op = overflowing_op true 16 lhs rhs op
apply_overflowing_op_for_type sint32 lhs rhs op = overflowing_op true 32 lhs rhs op
apply_overflowing_op_for_type sint64 lhs rhs op = overflowing_op true 64 lhs rhs op
apply_overflowing_op_for_type sint128 lhs rhs op = overflowing_op true 128 lhs rhs op
apply_overflowing_op_for_type uint8 lhs rhs op = overflowing_op false 8 lhs rhs op
apply_overflowing_op_for_type uint16 lhs rhs op = overflowing_op false 16 lhs rhs op
apply_overflowing_op_for_type uint32 lhs rhs op = overflowing_op false 32 lhs rhs op
apply_overflowing_op_for_type uint64 lhs rhs op = overflowing_op false 64 lhs rhs op
apply_overflowing_op_for_type uint128 lhs rhs op = overflowing_op false 128 lhs rhs op
apply_overflowing_op_for_type _ lhs rhs op = none

unfoldable pub eval_operation : CoreTypeConcrete → IntOperator → List Value → Option EvalAction
unfolding numeric_arg apply_overflowing_op_for_type get_value_from_integer
eval_operation int_ty operator (unit ∷ x ∷ y ∷ []) = do
  lhs ← numeric_arg x
  rhs ← numeric_arg y
  (res, had_overflow) ← apply_overflowing_op_for_type int_ty lhs rhs operator
  value ← get_value_from_integer int_ty res
  some (normal_branch (if had_overflow then 1 else 0) (unit ∷ value ∷ []))
eval_operation int_ty operator _ = none

unfoldable pub eval_const : CoreTypeConcrete → ℤ → Option EvalAction
unfolding get_value_from_integer
eval_const int_ty constant = do
  value ← get_value_from_integer int_ty constant
  some (normal_branch 0 (value ∷ []))

unfoldable pub eval_diff : CoreTypeConcrete → List Value → Option EvalAction
unfolding numeric_arg get_value_from_integer emu_integer_range
eval_diff int_ty (unit ∷ x ∷ y ∷ []) = do
  lhs ← numeric_arg x
  rhs ← numeric_arg y
  let res = lhs -ℤ rhs
  if ltb_ℤ res (pos 0)
      then (do
        range ← emu_integer_range int_ty
        value ← get_value_from_integer int_ty (range.upper +ℤ res)
        some (normal_branch 1 (unit ∷ value ∷ [])))
      else (do
        value ← get_value_from_integer int_ty res
        some (normal_branch 0 (unit ∷ value ∷ [])))
eval_diff int_ty _ = none

unfoldable pub eval_divmod : CoreTypeConcrete → List Value → Option EvalAction
unfolding numeric_arg get_value_from_integer
eval_divmod int_ty (unit ∷ x ∷ y ∷ []) = do
  lhs ← numeric_arg x
  rhs ← numeric_arg y
  quo ← tdiv lhs rhs
  rest ← trem lhs rhs
  res ← get_value_from_integer int_ty quo
  rem ← get_value_from_integer int_ty rest
  some (normal_branch 0 (unit ∷ res ∷ rem ∷ []))
eval_divmod int_ty _ = none

-- The integer of a felt between half the prime below and above zero.
abbrev pub signed_felt : ℕ → ℤ
signed_felt value = if ltb (prime / 2) value then neg_ℤ (pos (prime - value)) else pos value

unfoldable pub eval_from_felt : CoreTypeConcrete → List Value → Option EvalAction
unfolding get_value_from_integer emu_integer_range
eval_from_felt int_ty (unit ∷ Value.felt value_felt ∷ []) = do
  range ← emu_integer_range int_ty
  let value = signed_felt value_felt
  if leb_ℤ range.lower value && ltb_ℤ value range.upper
      then (do
        result ← get_value_from_integer int_ty value
        some (normal_branch 0 (unit ∷ result ∷ [])))
      else some (normal_branch 1 (unit ∷ []))
eval_from_felt int_ty _ = none

unfoldable pub eval_u128_from_felt : List Value → Option EvalAction
eval_u128_from_felt (unit ∷ Value.felt value ∷ []) =
    if ltb value (2 ^ 128)
    then some (normal_branch 0 (unit ∷ Value.u128 value ∷ []))
    else some
        (normal_branch 1 (unit ∷ Value.u128 (value / 2 ^ 128) ∷ Value.u128 (value % 2 ^ 128) ∷ []))
eval_u128_from_felt _ = none

unfoldable pub eval_is_zero : CoreTypeConcrete → List Value → Option EvalAction
unfolding numeric_arg get_value_from_integer
eval_is_zero int_ty (x ∷ []) = do
  value ← numeric_arg x
  if eqb_ℤ value (pos 0)
      then some (normal_branch 0 [])
      else (do same ← get_value_from_integer int_ty value; some (normal_branch 1 (same ∷ [])))
eval_is_zero int_ty _ = none

unfoldable pub eval_to_felt : List Value → Option EvalAction
unfolding numeric_arg
eval_to_felt (x ∷ []) = do
  val ← numeric_arg x
  some (normal_branch 0 (Value.felt (felt_of val) ∷ []))
eval_to_felt _ = none

unfoldable pub eval_widemul : CoreTypeConcrete → List Value → Option EvalAction
unfolding numeric_arg get_value_from_integer
eval_widemul int_ty (x ∷ y ∷ []) = do
  lhs ← numeric_arg x
  rhs ← numeric_arg y
  value ← get_value_from_integer int_ty (lhs *ℤ rhs)
  some (normal_branch 0 (value ∷ []))
eval_widemul int_ty _ = none

unfoldable pub eval_guarantee_mul : List Value → Option EvalAction
eval_guarantee_mul (Value.u128 lhs ∷ Value.u128 rhs ∷ []) = some (
    normal_branch 0
      (Value.u128 (lhs * rhs / 2 ^ 128) ∷ Value.u128 (lhs * rhs % 2 ^ 128) ∷ unit ∷ []))
eval_guarantee_mul _ = none

unfoldable pub eval_guarantee_verify : List Value → Option EvalAction
eval_guarantee_verify (unit ∷ unit ∷ []) = some (normal_branch 0 (unit ∷ []))
eval_guarantee_verify _ = none

-- ===== src/Emu/Cast.antt =====
-- debug_utils/sierra-emu/src/vm/cast.rs: the casts of the interpreter.
use cairo_native.Prelude.{Option, none, some, List, [], ◌∷◌, if◌then◌else◌}
use cairo_native.Utils.RangeExt.{Range}
use cairo_native.Types.{CoreTypeConcrete}
use cairo_native.Emu.Panic.{◌>>=◌}
use cairo_native.Emu.Value.{Value, EvalAction, normal_branch, unit}
use cairo_native.Emu.Numbers.{numeric_arg, get_value_from_integer}
use cairo_native.Emu.BoundedInt.{contains}

unfoldable pub eval_downcast : Range → CoreTypeConcrete → List Value → Option EvalAction
unfolding numeric_arg get_value_from_integer
eval_downcast to_range to_ty (unit ∷ x ∷ []) = do
  value ← numeric_arg x
  let cast = get_value_from_integer to_ty value
  if contains to_range value
      then (do result ← cast; some (normal_branch 0 (unit ∷ result ∷ [])))
      else some (normal_branch 1 (unit ∷ []))
eval_downcast to_range to_ty _ = none

unfoldable pub eval_upcast : CoreTypeConcrete → List Value → Option EvalAction
unfolding numeric_arg get_value_from_integer
eval_upcast to_ty (x ∷ []) = do
  value ← numeric_arg x
  result ← get_value_from_integer to_ty value
  some (normal_branch 0 (result ∷ []))
eval_upcast to_ty _ = none

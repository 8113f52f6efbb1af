-- ===== src/Emu/Felt252.antt =====
-- debug_utils/sierra-emu/src/vm/felt252.rs: felts are numbers below the prime. The division is that
-- of the third-party field, an argument.
use cairo_native.Prelude.{
  ℕ, ◌+◌, ◌-◌, ◌*◌, ◌%◌, ◌==◌, if◌then◌else◌, Option, none, some, List, [], ◌∷◌,
}
use cairo_native.Prelude.Int.{ℤ}
use cairo_native.Types.Integer.{prime}
use cairo_native.Emu.Panic.{◌>>=◌}
use cairo_native.Emu.Value.{Value, EvalAction, normal_branch}
use cairo_native.Emu.Numbers.{felt_of}

-- `Felt252BinaryOperator`
pub data FeltOperator : Type 0 where
  felt_add felt_sub felt_mul felt_div : FeltOperator

-- A division by zero panics.
abbrev pub apply_felt : (ℕ → ℕ → ℕ) → FeltOperator → ℕ → ℕ → Option ℕ
apply_felt field_div felt_add lhs rhs = some ((lhs + rhs) % prime)
apply_felt field_div felt_sub lhs rhs = some ((lhs + prime - rhs) % prime)
apply_felt field_div felt_mul lhs rhs = some (lhs * rhs % prime)
apply_felt field_div felt_div lhs rhs = if rhs == 0 then none else some (field_div lhs rhs)

unfoldable pub eval_felt_operation : (ℕ → ℕ → ℕ) → FeltOperator → List Value → Option EvalAction
eval_felt_operation field_div operator (Value.felt lhs ∷ Value.felt rhs ∷ []) = do
  res ← apply_felt field_div operator lhs rhs
  some (normal_branch 0 (Value.felt res ∷ []))
eval_felt_operation field_div operator _ = none

unfoldable pub eval_felt_const : ℤ → List Value → Option EvalAction
eval_felt_const c args = some (normal_branch 0 (Value.felt (felt_of c) ∷ []))

unfoldable pub eval_felt_is_zero : List Value → Option EvalAction
eval_felt_is_zero (Value.felt value ∷ []) =
    some (if value == 0 then normal_branch 0 [] else normal_branch 1 (Value.felt value ∷ []))
eval_felt_is_zero _ = none

-- ===== src/Emu/Gas.antt =====
-- debug_utils/sierra-emu/src/vm/gas.rs: payments from the gas counter, which is a word of 64 bits.
-- Sums and products wrap around, as in a release build.
pub mod Costs
use cairo_native.Prelude.{
  ℕ, ◌+◌, ◌-◌, ◌*◌, ◌%◌, ◌^◌, min, leb, ◌==◌, if◌then◌else◌, Option, none, some, List, [], ◌∷◌,
}
use cairo_native.Utils.BuiltinCosts.{
  BuiltinCosts, CostTokenType, const_token, pedersen_token, bitwise_token, ec_op_token,
  poseidon_token, add_mod_token, mul_mod_token, blake_token, other_token, words,
}
use cairo_native.Metadata.Gas.{GasInfo, GasCost}
use cairo_native.Emu.Panic.{◌>>=◌}
use cairo_native.Emu.Value.{Value, EvalAction, normal_branch, unit}
use cairo_native.Emu.Vm.{nth}
use cairo_native.Emu.Gas.Costs.{get_gas_costs_for_statement}

-- The match on the kind of the token.
unfoldable pub builtin_costs_index : CostTokenType → Option ℕ
builtin_costs_index const_token = some 0
builtin_costs_index pedersen_token = some 1
builtin_costs_index bitwise_token = some 2
builtin_costs_index ec_op_token = some 3
builtin_costs_index poseidon_token = some 4
builtin_costs_index add_mod_token = some 5
builtin_costs_index mul_mod_token = some 6
builtin_costs_index blake_token = some 7
builtin_costs_index (other_token n) = none

-- One turn of the loop over the costs.
unfoldable pub add_cost : List ℕ → ℕ × CostTokenType → ℕ → Option ℕ
unfolding builtin_costs_index
add_cost builtin_costs (cost_count, token_type) total = if cost_count == 0 then some total else do
  index ← builtin_costs_index token_type
  price ← nth builtin_costs index
  let cost_value = cost_count * price % 2 ^ 64
  some ((total + cost_value) % 2 ^ 64)

unfoldable pub add_costs : List ℕ → GasCost → ℕ → Option ℕ
unfolding add_cost
add_costs builtin_costs [] total = some total
add_costs builtin_costs (entry ∷ rest) total = do
  total' ← add_cost builtin_costs entry total
  add_costs builtin_costs rest total'

-- What both handlers of a withdrawal do after they know the cost.
abbrev pub withdraw : (gas total : ℕ) → EvalAction
withdraw gas total =
    if leb total gas
    then normal_branch 0 (unit ∷ Value.u64 (gas - total) ∷ [])
    else normal_branch 1 (unit ∷ Value.u64 gas ∷ [])

-- The gas metadata are the solution of the gas equations and the list of tokens; a handler is told
-- the number of its statement and the prices of the machine.
module _ (info : GasInfo) (tokens : List CostTokenType) (statement_idx : ℕ) where
  unfoldable pub eval_builtin_withdraw_gas : List Value → Option EvalAction
  unfolding add_costs
  eval_builtin_withdraw_gas (Value.unit ∷ Value.u64 gas ∷ Value.builtin_costs costs ∷ []) = do
    gas_cost ← get_gas_costs_for_statement info tokens statement_idx
    total ← add_costs (words costs) gas_cost 0
    some (withdraw gas total)
  eval_builtin_withdraw_gas _ = none

  unfoldable pub eval_withdraw_gas : BuiltinCosts → List Value → Option EvalAction
  unfolding add_costs
  eval_withdraw_gas costs (Value.unit ∷ Value.u64 gas ∷ []) = do
    gas_cost ← get_gas_costs_for_statement info tokens statement_idx
    total ← add_costs (words costs) gas_cost 0
    some (withdraw gas total)
  eval_withdraw_gas costs _ = none

  unfoldable pub eval_redeposit_gas : BuiltinCosts → List Value → Option EvalAction
  unfolding add_costs
  eval_redeposit_gas costs (Value.u64 gas ∷ []) = do
    gas_cost ← get_gas_costs_for_statement info tokens statement_idx
    total ← add_costs (words costs) gas_cost 0
    some (normal_branch 0 (Value.u64 (min (gas + total) (2 ^ 64 - 1)) ∷ []))
  eval_redeposit_gas costs _ = none

unfoldable pub eval_get_available_gas : List Value → Option EvalAction
eval_get_available_gas (Value.u64 gas ∷ []) =
    some (normal_branch 0 (Value.u64 gas ∷ Value.u128 gas ∷ []))
eval_get_available_gas _ = none

unfoldable pub eval_get_builtin_costs : BuiltinCosts → List Value → Option EvalAction
eval_get_builtin_costs costs args = some (normal_branch 0 (Value.builtin_costs costs ∷ []))

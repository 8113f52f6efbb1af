-- ===== src/Emu/Gas/Costs.antt =====
-- debug_utils/sierra-emu/src/gas.rs: what statements and functions cost.
use cairo_native.Prelude.{
  ℕ, ◌+◌, ◌-◌, ◌*◌, ◌%◌, ◌^◌, ltb, if◌then◌else◌, Option, none, some, List, [], ◌∷◌,
}
use cairo_native.Prelude.Int.{ℤ, pos, negsuc}
use cairo_native.Utils.BuiltinCosts.{CostTokenType}
use cairo_native.Metadata.Gas.{GasInfo, GasCost, find}
use cairo_native.Emu.Panic.{◌>>=◌}

-- The machine's error: the gas that is required, and the gas that there is.
pub data GasMetadataError : Type 0 where
  not_enough_gas : ℕ → ℕ → GasMetadataError

pub data GasResult : Type 0 where
  err : GasMetadataError → GasResult
  ok : ℕ → GasResult

unfoldable pub get_gas_cost_for_statement_and_cost_token_type :
    GasInfo → ℕ → CostTokenType → Option (Option ℕ)
get_gas_cost_for_statement_and_cost_token_type info idx cost_type =
    elim (info.variable_values idx cost_type) [
      | none ↦ some none
      | some (pos n) ↦ some (some n)
      | some (negsuc n) ↦ none
    ]

unfoldable pub push_if_positive : Option ℕ → CostTokenType → GasCost → GasCost
push_if_positive none cost_type rest = rest
push_if_positive (some count) cost_type rest =
    if ltb 0 count then (count, cost_type) ∷ rest else rest

unfoldable pub get_gas_costs_for_statement :
    GasInfo → (tokens : List CostTokenType) → ℕ → Option GasCost
unfolding push_if_positive get_gas_cost_for_statement_and_cost_token_type
get_gas_costs_for_statement info [] idx = some []
get_gas_costs_for_statement info (cost_type ∷ tokens) idx = do
  cost ← get_gas_cost_for_statement_and_cost_token_type info idx cost_type
  rest ← get_gas_costs_for_statement info tokens idx
  some (push_if_positive cost cost_type rest)

module _ (token_gas_cost : CostTokenType → ℕ) where
  -- The sum, in machine words.
  unfoldable pub required_gas : List (CostTokenType × ℤ) → Option ℕ
  required_gas [] = some 0
  required_gas ((token_type, pos val) ∷ rest) = do
    total ← required_gas rest
    some ((val * token_gas_cost token_type % 2 ^ 64 + total) % 2 ^ 64)
  required_gas ((token_type, negsuc val) ∷ rest) = none

  unfoldable pub initial_required_gas : GasInfo → ℕ → Option (Option ℕ)
  unfolding required_gas
  initial_required_gas info func = elim info.function_costs [
    | [] ↦ some none
    | entry ∷ rest ↦ elim (find (entry ∷ rest) func) [
      | none ↦ none
      | some costs ↦ do total ← required_gas costs; some (some total)
    ]
  ]

  unfoldable pub get_initial_available_gas : GasInfo → ℕ → Option ℕ → Option GasResult
  unfolding initial_required_gas
  get_initial_available_gas info func none = some (ok 0)
  get_initial_available_gas info func (some available_gas) = do
    required ← initial_required_gas info func
    elim required [
      | none ↦ some (ok 0)
      | some gas ↦
          if ltb available_gas gas
          then some (err (not_enough_gas gas available_gas))
          else some (ok (available_gas - gas))
    ]

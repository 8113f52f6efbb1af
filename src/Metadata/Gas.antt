-- ===== src/Metadata/Gas.antt =====
-- src/metadata/gas.rs: what statements and functions cost. The solution of the gas equations is
-- that of a third-party library: `GasInfo`, with its prices and its list of tokens.
pub mod Laws
pub mod Wallets
pub mod Flows
mod Examples
use cairo_native.Prelude.{
  ℕ, suc, ◌+◌, ◌*◌, ◌-◌, ◌%◌, ◌^◌, ltb, ◌==◌, if◌then◌else◌, Bool, List, [], ◌∷◌, Option, none,
  some,
}
use cairo_native.Prelude.Int.{ℤ, pos, negsuc}
use cairo_native.Error.{Result, ok, err, native_assert, panic, not_enough_gas, ◌>>=◌}
use cairo_native.Utils.BuiltinCosts.{CostTokenType}

-- The numbers are words of 64 bits with a sign. A function is named by its number.
pub record GasInfo : Type 0 where
  pub variable_values : ℕ → CostTokenType → Option ℤ
  pub function_costs : List (ℕ × List (CostTokenType × ℤ))

-- The number of tokens of each kind that a statement costs.
abbrev pub GasCost : Type 0
GasCost = List (ℕ × CostTokenType)

-- Sierra's `GasWallet`: the tokens that are paid for and not spent yet.
pub data GasWallet : Type 0 where
  value : List (CostTokenType × ℤ) → GasWallet
  disabled : GasWallet

abbrev pub find {ℓ} : {A : Type ℓ} → List (ℕ × A) → ℕ → Option A
find [] key = none
find ((k, a) ∷ rest) key = let later = find rest key in if k == key then some a else later

-- `try_into().expect(..)`: a negative number panics.
unfoldable pub get_gas_cost_for_statement_and_cost_token_type :
    GasInfo → ℕ → CostTokenType → Result (Option ℕ)
get_gas_cost_for_statement_and_cost_token_type info idx cost_type =
    elim (info.variable_values idx cost_type) [
      | none ↦ ok none
      | some (pos n) ↦ ok (some n)
      | some (negsuc n) ↦ err panic
    ]

-- `if let Some(cost_count)` and the test that it is not zero.
abbrev pub push_cost : Option ℕ → CostTokenType → GasCost → GasCost
push_cost none cost_type rest = rest
push_cost (some count) cost_type rest = if ltb 0 count then (count, cost_type) ∷ rest else rest

-- The argument is the list of `CostTokenType::iter_casm_tokens`.
unfoldable pub get_gas_costs_for_statement :
    GasInfo → (tokens : List CostTokenType) → ℕ → Result GasCost
get_gas_costs_for_statement info [] idx = ok []
get_gas_costs_for_statement info (cost_type ∷ tokens) idx = do
  cost ← get_gas_cost_for_statement_and_cost_token_type info idx cost_type
  rest ← get_gas_costs_for_statement info tokens idx
  ok (push_cost cost cost_type rest)

module _ (token_gas_cost : CostTokenType → ℕ) where
  -- The sum, in machine words.
  unfoldable pub required_gas : List (CostTokenType × ℤ) → Result ℕ
  required_gas [] = ok 0
  required_gas ((token_type, pos val) ∷ rest) = do
    total ← required_gas rest
    ok ((val * token_gas_cost token_type % 2 ^ 64 + total) % 2 ^ 64)
  required_gas ((token_type, negsuc val) ∷ rest) = err native_assert

  -- `function_costs[func]` panics for a function that it does not have.
  unfoldable pub initial_required_gas : GasInfo → ℕ → Result (Option ℕ)
  unfolding required_gas
  initial_required_gas info func = elim info.function_costs [
    | [] ↦ ok none
    | entry ∷ rest ↦ elim (find (entry ∷ rest) func) [
      | none ↦ err panic
      | some costs ↦ do total ← required_gas costs; ok (some total)
    ]
  ]

  unfoldable pub get_initial_available_gas : GasInfo → ℕ → Option ℕ → Result ℕ
  unfolding initial_required_gas
  get_initial_available_gas info func none = ok 0
  get_initial_available_gas info func (some available_gas) = do
    required ← initial_required_gas info func
    elim required [
      | none ↦ ok 0
      | some required_gas ↦
          if ltb available_gas required_gas
          then err (not_enough_gas required_gas available_gas)
          else ok (available_gas - required_gas)
    ]

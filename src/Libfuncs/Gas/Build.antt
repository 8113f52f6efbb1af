-- ===== src/Libfuncs/Gas/Build.antt =====
-- src/libfuncs/gas.rs: the builders.
use cairo_native.Prelude.{ℕ, ◌==◌, if◌then◌else◌, List, [], ◌∷◌, Option, none, some}
use cairo_native.Prelude.Int.{ℤ, pos, negsuc}
use cairo_native.Error.{Result, Error, ok, err, mlir_error, missing_metadata, native_assert, ◌>>=◌}
use cairo_native.Mlir.{Mlir, uge}
use cairo_native.Utils.BuiltinCosts.{CostTokenType, index_for_token_type}
use cairo_native.Metadata.Gas.{GasCost, GasWallet, value, disabled}
use cairo_native.Libfuncs.Counter.{Jump, increment_builtin_counter}

-- `RuntimeBindingsMeta` as far as it matters here: the pointer to the prices, and the words that
-- lie behind a pointer when the code runs.
pub record GasRuntime : Type 0 where
  pub get_costs_builtin : ℕ
  pub load : ℕ → ℕ → ℕ

-- `ok_or` on an entry of the metadata.
abbrev pub required {ℓ} : {A : Type ℓ} → Error → Option A → Result A
required e none = err e
required e (some a) = ok a

-- The numbers of tokens of a wallet as words.
unfoldable pub wallet_cost : List (CostTokenType × ℤ) → Result GasCost
wallet_cost [] = ok []
wallet_cost ((token_type, pos n) ∷ rest) = do costs ← wallet_cost rest; ok ((n, token_type) ∷ costs)
wallet_cost ((token_type, negsuc n) ∷ rest) = err native_assert

module _ (m : Mlir) where
  -- One turn of the loop over the entries: the total with the entry's cost.
  unfoldable pub add_cost : (ℕ → ℕ) → ℕ × CostTokenType → ℕ → Result ℕ
  add_cost load (count, token_type) total = if count == 0 then ok total else do
    token_count ← m.const_int 64 (pos count)
    index ← index_for_token_type token_type
    token_costs_index ← m.const_int 64 (pos index)
    let token_cost = load token_costs_index
    let gas_cost = m.muli 64 token_count token_cost
    ok (m.addi 64 total gas_cost)

  unfoldable pub add_costs : (ℕ → ℕ) → GasCost → ℕ → Result ℕ
  unfolding add_cost
  add_costs load [] total = ok total
  add_costs load (entry ∷ rest) total = do
    total' ← add_cost load entry total
    add_costs load rest total'

  -- The prices are the words behind the pointer.
  unfoldable pub build_calculate_gas_cost : (ℕ → ℕ) → GasCost → Result ℕ
  unfolding add_costs
  build_calculate_gas_cost load gas_cost = do
    zero_value ← m.const_int 64 (pos 0)
    add_costs load gas_cost zero_value

  -- The metadata that a builder finds: the bindings of the runtime and the cost of the statement.
  module _ (runtime : Option GasRuntime) (gas_cost : Option GasCost) where
    unfoldable pub build_withdraw_gas : List ℕ → Result Jump
    unfolding build_calculate_gas_cost
    build_withdraw_gas (counter ∷ current_gas ∷ []) = do
      range_check ← increment_builtin_counter m counter
      rt ← required missing_metadata runtime
      cost ← required native_assert gas_cost
      total ← build_calculate_gas_cost (rt.load rt.get_costs_builtin) cost
      let is_enough = m.cmpi uge 64 current_gas total
      let resulting_gas = m.usub_sat 64 current_gas total
      ok (
          if is_enough
          then (0, range_check ∷ resulting_gas ∷ [])
          else (1, range_check ∷ current_gas ∷ []))
    build_withdraw_gas _ = err mlir_error

    unfoldable pub build_redeposit_gas : List ℕ → Result Jump
    unfolding build_calculate_gas_cost
    build_redeposit_gas (current_gas ∷ []) = do
      cost ← required native_assert gas_cost
      rt ← required missing_metadata runtime
      total ← build_calculate_gas_cost (rt.load rt.get_costs_builtin) cost
      ok (0, m.uadd_sat 64 current_gas total ∷ [])
    build_redeposit_gas _ = err mlir_error

    -- The pointer to the prices is an argument; `load` reads the memory.
    unfoldable pub build_builtin_withdraw_gas : (ℕ → ℕ → ℕ) → List ℕ → Result Jump
    unfolding build_calculate_gas_cost
    build_builtin_withdraw_gas load (counter ∷ current_gas ∷ builtin_ptr ∷ []) = do
      range_check ← increment_builtin_counter m counter
      cost ← required native_assert gas_cost
      total ← build_calculate_gas_cost (load builtin_ptr) cost
      let is_enough = m.cmpi uge 64 current_gas total
      let resulting_gas = m.usub_sat 64 current_gas total
      ok (
          if is_enough
          then (0, range_check ∷ resulting_gas ∷ [])
          else (1, range_check ∷ current_gas ∷ []))
    build_builtin_withdraw_gas load _ = err mlir_error

    unfoldable pub build_get_builtin_costs : List ℕ → Result Jump
    build_get_builtin_costs args = do
      rt ← required missing_metadata runtime
      ok (0, rt.get_costs_builtin ∷ [])

    -- What the wallet of the statement holds is added, unless wallets are switched off.
    unfoldable pub unspent : Option GasWallet → ℕ → Result ℕ
    unfolding build_calculate_gas_cost
    unspent none current_gas = err native_assert
    unspent (some (value tokens)) current_gas = do
      rt ← required missing_metadata runtime
      cost ← wallet_cost tokens
      total ← build_calculate_gas_cost (rt.load rt.get_costs_builtin) cost
      ok (m.addi 64 current_gas total)
    unspent (some disabled) current_gas = ok current_gas

    unfoldable pub build_get_unspent_gas : Option GasWallet → List ℕ → Result Jump
    unfolding unspent
    build_get_unspent_gas wallet (current_gas ∷ []) = do
      gas ← unspent wallet current_gas
      ok (0, current_gas ∷ m.extui 64 128 gas ∷ [])
    build_get_unspent_gas wallet _ = err mlir_error

  unfoldable pub build_get_available_gas : List ℕ → Result Jump
  build_get_available_gas (current_gas ∷ []) = ok (0, current_gas ∷ m.extui 64 128 current_gas ∷ [])
  build_get_available_gas _ = err mlir_error

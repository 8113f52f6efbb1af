-- ===== src/Metadata/Gas/Wallets.antt =====
-- src/metadata/gas.rs: the gas wallet of each statement (`calculate_statement_wallets`).
use cairo_native.Prelude.{ℕ, zero, suc, Bool, true, false, List, [], ◌∷◌, Option, none, some}
use cairo_native.Prelude.Int.{ℤ}
use cairo_native.Error.{Result, ok, err, panic, missing_gas_wallet, inconsistent_gas_wallet, ◌>>=◌}
use cairo_native.Utils.BuiltinCosts.{CostTokenType}
use cairo_native.Metadata.Gas.{GasInfo, GasWallet, value, disabled, find}
use cairo_native.Emu.Vm.{Statement, invocation, return, BranchInfo, nth}

-- What the function calls: the program's functions with their entry points and its statements,
-- `StatementIdx::next`, Sierra's `CircuitsInfo::new`, the registry's `get_libfunc`,
-- `core_libfunc_cost` at a statement, and `GasWallet::update` and its test of equality.
pub record Flow (Target LibfuncId Libfunc Circuits Change : Type 0) : Type 0 where
  pub funcs : List (ℕ × ℕ)
  pub statements : List (Statement Target LibfuncId)
  pub next : ℕ → Target → ℕ
  pub circuits_info : Result Circuits
  pub get_libfunc : LibfuncId → Result Libfunc
  pub core_libfunc_cost : Circuits → ℕ → Libfunc → List Change
  pub update : GasWallet → Change → Result GasWallet
  pub same : GasWallet → GasWallet → Bool

abbrev pub Wallets : Type 0
Wallets = List (Option GasWallet)

-- An index beyond the end panics.
abbrev pub replace : Wallets → ℕ → GasWallet → Result Wallets
replace [] i wallet = err panic
replace (w ∷ ws) zero wallet = ok (some wallet ∷ ws)
replace (w ∷ ws) (suc i) wallet = do ws' ← replace ws i wallet; ok (w ∷ ws')

-- `ok_or(MissingGasWallet)`
abbrev pub wallet_of : Option (Option GasWallet) → Result GasWallet
wallet_of none = err panic
wallet_of (some none) = err missing_gas_wallet
wallet_of (some (some w)) = ok w

abbrev pub nothing : {A : Type 0} → List A → Wallets
nothing [] = []
nothing (a ∷ rest) = none ∷ nothing rest

abbrev pub entry_wallet : Option (List (CostTokenType × ℤ)) → GasWallet
entry_wallet none = disabled
entry_wallet (some cost) = value cost

-- The last loop: every statement has a wallet.
abbrev pub collect : Wallets → Result (List GasWallet)
collect [] = ok []
collect (none ∷ ws) = err missing_gas_wallet
collect (some w ∷ ws) = do rest ← collect ws; ok (w ∷ rest)

module _ {Target LibfuncId Libfunc Circuits Change : Type 0}
    (flow : Flow Target LibfuncId Libfunc Circuits Change) where
  -- The match on the old wallet: the first one stays.
  unfoldable pub settle : Wallets → ℕ → GasWallet → Option (Option GasWallet) → Result Wallets
  settle wallets dst new none = err panic
  settle wallets dst new (some none) = replace wallets dst new
  settle wallets dst new (some (some old)) = elim (flow.same new old) [
    | true ↦ ok wallets
    | false ↦ err inconsistent_gas_wallet
  ]

  -- The loop over the branches of a statement and their changes of gas.
  unfoldable pub flow_branches :
      ℕ → GasWallet → List (BranchInfo Target) → List Change → Wallets → Result Wallets
  unfolding settle
  flow_branches idx src (branch ∷ branches) (change ∷ changes) wallets = do
    let dst = flow.next idx branch.target
    new ← flow.update src change
    wallets' ← settle wallets dst new (nth wallets dst)
    flow_branches idx src branches changes wallets'
  flow_branches idx src _ _ wallets = ok wallets

  unfoldable pub flow_statement :
      Circuits → ℕ → Statement Target LibfuncId → Wallets → Result Wallets
  unfolding flow_branches
  flow_statement circuits idx (invocation id args branches) wallets = do
    libfunc ← flow.get_libfunc id
    src ← wallet_of (nth wallets idx)
    flow_branches idx src branches (flow.core_libfunc_cost circuits idx libfunc) wallets
  flow_statement circuits idx (return ids) wallets = ok wallets

  -- The loop over the statements, from an index on.
  unfoldable pub flow_statements :
      Circuits → ℕ → List (Statement Target LibfuncId) → Wallets → Result Wallets
  unfolding flow_statement
  flow_statements circuits idx [] wallets = ok wallets
  flow_statements circuits idx (statement ∷ rest) wallets = do
    wallets' ← flow_statement circuits idx statement wallets
    flow_statements circuits (suc idx) rest wallets'

  -- The loop over the functions: a function has paid for its call.
  unfoldable pub enter_functions : GasInfo → List (ℕ × ℕ) → Wallets → Result Wallets
  enter_functions info [] wallets = ok wallets
  enter_functions info ((id, entry_point) ∷ rest) wallets = do
    wallets' ← replace wallets entry_point (entry_wallet (find info.function_costs id))
    enter_functions info rest wallets'

  unfoldable pub calculate_statement_wallets : GasInfo → Result (List GasWallet)
  unfolding flow_statements enter_functions
  calculate_statement_wallets info = do
    wallets ← enter_functions info flow.funcs (nothing flow.statements)
    circuits ← flow.circuits_info
    wallets' ← flow_statements circuits 0 flow.statements wallets
    collect wallets'

-- ===== src/Metadata/Gas/Examples.antt =====
-- A program of three statements: the second jumps back to the first or returns.
use cairo_native.Prelude.{ℕ, suc, ◌≡◌, refl, Bool, true, false, [], ◌∷◌, Option, none, some}
use cairo_native.Error.{Result, ok}
use cairo_native.Metadata.Gas.{GasInfo, GasWallet, value, disabled}
use cairo_native.Metadata.Gas.Wallets.{Flow, calculate_statement_wallets}
use cairo_native.Metadata.Gas.Flows.{AllFlow, calculate_statement_wallets-AllFlow}
use cairo_native.Emu.Vm.{invocation, return, BranchInfo, nth}

-- Wallets that are switched off or empty: a change that is `true` makes one of the other.
abbrev change_wallet : GasWallet → Bool → Result GasWallet
change_wallet wallet false = ok wallet
change_wallet disabled true = ok (value [])
change_wallet (value tokens) true = ok disabled

abbrev same_wallet : GasWallet → GasWallet → Bool
same_wallet disabled disabled = true
same_wallet (value []) (value []) = true
same_wallet _ _ = false

same_wallet-eq : (v w : GasWallet) → same_wallet v w ≡ true → v ≡ w
same_wallet-eq disabled disabled h = refl
same_wallet-eq (value []) (value []) h = refl
same_wallet-eq (value (t ∷ ts)) w h = cc
same_wallet-eq (value []) (value (t ∷ ts)) h = cc
same_wallet-eq (value []) disabled h = cc
same_wallet-eq disabled (value ts) h = cc

abbrev to : Option ℕ → BranchInfo (Option ℕ)
to target = record { target = target; results = [] }

abbrev next : ℕ → Option ℕ → ℕ
next idx none = suc idx
next idx (some target) = target

abbrev program : Flow (Option ℕ) ℕ ℕ (Unit {0}) Bool
program = record {
  funcs = (0, 0) ∷ [];
  statements =
      invocation 0 [] (to none ∷ [])
      ∷ invocation 1 [] (to (some 0) ∷ to none ∷ [])
      ∷ return []
      ∷ [];
  next = next;
  circuits_info = ok tt;
  get_libfunc = λ id. ok id;
  core_libfunc_cost = λ circuits idx libfunc. true ∷ false ∷ [];
  update = change_wallet;
  same = same_wallet;
}

abbrev no_costs : GasInfo
no_costs = record { variable_values = λ idx t. none; function_costs = [] }

found_wallets :
    calculate_statement_wallets program no_costs ≡ ok (disabled ∷ value [] ∷ value [] ∷ [])
unfolding calculate_statement_wallets
found_wallets = refl

calculate_statement_wallets-AllFlow_example :
    (circuits : Unit {0}) × (ok tt ≡ ok circuits)
    × AllFlow program
        (λ i w. nth (disabled ∷ value [] ∷ value [] ∷ []) i ≡ some w)
        circuits
        0
        program.statements
calculate_statement_wallets-AllFlow_example =
    calculate_statement_wallets-AllFlow program same_wallet-eq no_costs
      (disabled ∷ value [] ∷ value [] ∷ []) found_wallets

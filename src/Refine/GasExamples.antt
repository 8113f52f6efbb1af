-- ===== src/Refine/GasExamples.antt =====
-- Gas at concrete prices: statement 3 costs two steps and one Pedersen hash.
use cairo_native.Prelude.{
  ℕ, ◌≡◌, arith, Bool, ◌==◌, if◌then◌else◌, Option, none, some, List, [], ◌∷◌,
}
use cairo_native.Prelude.Int.{ℤ, pos}
use cairo_native.Error.{ok}
use cairo_native.Mlir.Wrapping.{wrapping, wrapping-IsMlir}
use cairo_native.Utils.BuiltinCosts.{CostTokenType, const_token, pedersen_token}
use cairo_native.Metadata.Gas.{GasInfo, GasCost, get_gas_costs_for_statement}
use cairo_native.Metadata.Gas.Laws.{Solved, IsCount}
use cairo_native.Libfuncs.Gas.Build.{
  build_withdraw_gas, build_builtin_withdraw_gas, build_redeposit_gas,
}
use cairo_native.Libfuncs.Gas.Examples.{prices, prices_at, runtime, prices-HoldsCosts}
use cairo_native.Emu.Value.{Value, unit}
use cairo_native.Emu.Gas.{eval_withdraw_gas, eval_builtin_withdraw_gas, eval_redeposit_gas}
use cairo_native.Refine.Gas.{SameGas, gas-SameGas}

abbrev variables : ℕ → CostTokenType → Option ℤ
variables idx const_token = if idx == 3 then some (pos 2) else none
variables idx pedersen_token = some (pos 1)
variables idx _ = none

abbrev solution : GasInfo
solution = record { variable_values = variables; function_costs = [] }

abbrev tokens : List CostTokenType
tokens = const_token ∷ pedersen_token ∷ []

solution-Solved : Solved solution
solution-Solved idx const_token =
    elim (idx == 3) as (λ b. IsCount (if b then some (pos 2) else none)) [
      | Bool.true ↦ omega arith
      | Bool.false ↦ tt
    ]
solution-Solved idx pedersen_token = omega arith
solution-Solved idx _ = tt

gas-SameGas_example :
    (cost : GasCost) × (get_gas_costs_for_statement solution tokens 3 ≡ ok cost)
    × SameGas
        (unit ∷ [])
        (8 ∷ [])
        (eval_withdraw_gas solution tokens 3 prices (unit ∷ Value.u64 5000 ∷ []))
        (build_withdraw_gas wrapping (some runtime) (some cost) (7 ∷ 5000 ∷ []))
    × SameGas
        (unit ∷ [])
        (8 ∷ [])
        (eval_builtin_withdraw_gas solution tokens 3
          (unit ∷ Value.u64 5000 ∷ Value.builtin_costs prices ∷ []))
        (build_builtin_withdraw_gas wrapping
          (some runtime)
          (some cost)
          prices_at
          (7 ∷ 5000 ∷ 16 ∷ []))
    × SameGas [] []
        (eval_redeposit_gas solution tokens 3 prices (Value.u64 5000 ∷ []))
        (build_redeposit_gas wrapping (some runtime) (some cost) (5000 ∷ []))
gas-SameGas_example =
    gas-SameGas wrapping-IsMlir runtime prices-HoldsCosts solution solution-Solved tokens
      (tt, (tt, tt)) 3 7 5000 (omega arith) (omega arith)

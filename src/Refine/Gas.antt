-- ===== src/Refine/Gas.antt =====
-- Payments from the gas counter in the interpreter and in the compiled code.
use cairo_native.Prelude.{
  ℕ, min, ◌+◌, ◌-◌, ◌*◌, ◌%◌, ◌^◌, ◌<◌, ◌≡◌, ◌∙◌, refl, ap, arith, leb, ◌==◌, ==→eq, Bool-cases,
  Option, none, some, List, [], ◌∷◌, ◌++◌, inl, inr,
}
use cairo_native.Prelude.Int.{ℤ, pos, negsuc}
use cairo_native.Error.{Result, ok, err, panic, ok-injective, not_ok, bind-ok}
use cairo_native.Mlir.{Mlir, IsMlir}
use cairo_native.Utils.BuiltinCosts.{
  BuiltinCosts, CostTokenType, const_token, pedersen_token, bitwise_token, ec_op_token,
  poseidon_token, add_mod_token, mul_mod_token, blake_token, other_token, words,
}
use cairo_native.Metadata.Gas.{
  GasInfo, GasCost, get_gas_cost_for_statement_and_cost_token_type, get_gas_costs_for_statement,
  push_cost,
}
use cairo_native.Metadata.Gas.Laws.{Solved, AllPriced, get_gas_costs_for_statement-Costed}
use cairo_native.Libfuncs.Counter.{Jump}
use cairo_native.Libfuncs.Gas.Build.{
  GasRuntime, build_withdraw_gas, build_builtin_withdraw_gas, build_redeposit_gas,
}
use cairo_native.Libfuncs.Gas.Cost.{HasPrice, Payable, HoldsCosts, price, charge, later, sooner}
use cairo_native.Libfuncs.Gas.Laws.{
  pay, word_charge, build_withdraw_gas-pay, build_builtin_withdraw_gas-pay, build_redeposit_gas-min,
}
use cairo_native.Emu.Value.{Value, EvalAction, normal_branch, unit}
use cairo_native.Emu.Vm.{nth}
use cairo_native.Emu.Gas.Costs
use cairo_native.Emu.Gas.{
  builtin_costs_index, add_cost, add_costs, eval_withdraw_gas, eval_builtin_withdraw_gas,
  eval_redeposit_gas, withdraw,
}

-- Both take the same branch with the same gas, behind the results for the range check.
pub record SameGas (units : List Value) (counters : List ℕ) (e : Option EvalAction)
    (j : Result Jump) : Type 0 where
  pub branch : ℕ
  pub gas : ℕ
  pub gas_lt : gas < 2 ^ 64
  pub interpreted : e ≡ some (normal_branch branch (units ++ Value.u64 gas ∷ []))
  pub compiled : j ≡ ok (branch, counters ++ gas ∷ [])

-- The interpreter finds the same costs.
count-same :
    (info : GasInfo) (idx : ℕ) (t : CostTokenType) (count : Option ℕ)
    → get_gas_cost_for_statement_and_cost_token_type info idx t ≡ ok count
    → Costs.get_gas_cost_for_statement_and_cost_token_type info idx t ≡ some count
unfolding get_gas_cost_for_statement_and_cost_token_type
    Costs.get_gas_cost_for_statement_and_cost_token_type
count-same info idx t count = go (info.variable_values idx t)
  where
    go :
        (found : Option ℤ)
        → (elim found [ none ↦ ok none | some (pos n) ↦ ok (some n) | some (negsuc n) ↦ err panic ])
          ≡ ok count
        → (elim found [ none ↦ some none | some (pos n) ↦ some (some n) | some (negsuc n) ↦ none ])
          ≡ some count
    go none h = ap some (ok-injective h)
    go (some (pos n)) h = ap some (ok-injective h)
    go (some (negsuc n)) h = absurd (not_ok h)

push-same :
    (count : Option ℕ) (t : CostTokenType) (rest : GasCost)
    → Costs.push_if_positive count t rest ≡ push_cost count t rest
unfolding Costs.push_if_positive
push-same none t rest = refl
push-same (some count) t rest = refl

costs-same :
    (info : GasInfo) (tokens : List CostTokenType) (idx : ℕ) (cost : GasCost)
    → get_gas_costs_for_statement info tokens idx ≡ ok cost
    → Costs.get_gas_costs_for_statement info tokens idx ≡ some cost
unfolding get_gas_costs_for_statement Costs.get_gas_costs_for_statement
costs-same info [] idx cost h = ap some (ok-injective h)
costs-same info (t ∷ tokens) idx cost h =
    let (count, e, f) = bind-ok (get_gas_cost_for_statement_and_cost_token_type info idx t) h in
    let (rest, g, k) = bind-ok (get_gas_costs_for_statement info tokens idx) f in
    rw (count-same info idx t count e, costs-same info tokens idx rest g)
      (ap some (push-same count t rest ∙ ok-injective k))

-- And the same total.
price-nth :
    {costs : BuiltinCosts} (t : CostTokenType)
    → HasPrice t
    → (i : ℕ) × (builtin_costs_index t ≡ some i) × (nth (words costs) i ≡ some (price costs t))
unfolding builtin_costs_index
price-nth const_token priced = (0, refl, refl)
price-nth pedersen_token priced = (1, refl, refl)
price-nth bitwise_token priced = (2, refl, refl)
price-nth ec_op_token priced = (3, refl, refl)
price-nth poseidon_token priced = (4, refl, refl)
price-nth add_mod_token priced = (5, refl, refl)
price-nth mul_mod_token priced = (6, refl, refl)
price-nth blake_token priced = (7, refl, refl)
price-nth (other_token n) priced = absurd priced

module _ (costs : BuiltinCosts) where
  add_cost_lem :
      (count total : ℕ) (t : CostTokenType)
      → HasPrice t
      → total < 2 ^ 64
      → add_cost (words costs) (count, t) total ≡ some ((total + count * price costs t) % 2 ^ 64)
  unfolding add_cost
  add_cost_lem count total t priced h = elim (Bool-cases (count == 0)) [
    | inl e ↦ rw (e, ==→eq count 0 e) (ap some (omega (arith, h)))
    | inr e ↦
        let (i, f, g) = price-nth {costs = costs} t priced in
        rw (e, f, g) (ap some (later total (count * price costs t)))
  ]

  add_costs_lem :
      (cost : GasCost) (total : ℕ)
      → Payable cost
      → total < 2 ^ 64
      → add_costs (words costs) cost total ≡ some ((total + charge costs cost) % 2 ^ 64)
  unfolding add_costs
  add_costs_lem [] total payable h = ap some (omega (arith, h))
  add_costs_lem ((count, t) ∷ rest) total (hc, priced, payable) h =
      let c = count * price costs t in
      rw
        (
          add_cost_lem count total t priced h,
          add_costs_lem rest ((total + c) % 2 ^ 64) payable (omega arith),
        )
        (ap some (sooner total c (charge costs rest)))

  total-same :
      (cost : GasCost)
      → Payable cost
      → add_costs (words costs) cost 0 ≡ some (word_charge costs cost)
  total-same cost payable = add_costs_lem cost 0 payable (omega arith) ∙ ap some (omega arith)

-- The machine's metadata, and the memory of the compiled code with the same prices.
module _ {m : Mlir} (laws : IsMlir m) (rt : GasRuntime) {costs : BuiltinCosts}
    (memory : HoldsCosts (rt.load rt.get_costs_builtin) costs) (info : GasInfo)
    (solved : Solved info) (tokens : List CostTokenType) (priced : AllPriced tokens) (idx : ℕ) where
  paid_same :
      (cost : GasCost) (counter gas : ℕ) {e : Option EvalAction} {j : Result Jump}
      → gas < 2 ^ 64
      → e ≡ some (withdraw gas (word_charge costs cost))
      → j ≡ ok (pay counter gas (word_charge costs cost))
      → SameGas (unit ∷ []) (counter ∷ []) e j
  paid_same cost counter gas hg interpreted compiled =
      elim (Bool-cases (leb (word_charge costs cost) gas)) [
        | inl f ↦ record {
          branch = 0;
          gas = gas - word_charge costs cost;
          gas_lt = omega (arith, hg);
          interpreted = rw f at interpreted;
          compiled = rw f at compiled;
        }
        | inr f ↦ record {
          branch = 1;
          gas = gas;
          gas_lt = hg;
          interpreted = rw f at interpreted;
          compiled = rw f at compiled;
        }
      ]

  -- Where the gas equations of a program are solved in words that are not negative, at any
  -- statement, with prices that are the same words for the interpreter and in the memory of the
  -- compiled code: the costs of the statement are known, and, with these costs, the interpreter
  -- and the compiled code do the same for a withdrawal with the machine's prices, for one whose
  -- prices are an argument, and for a redeposit. They take the same branch with the same gas.
  pub gas-SameGas :
      (counter gas : ℕ)
      → counter < 2 ^ 64
      → gas < 2 ^ 64
      → (cost : GasCost) × (get_gas_costs_for_statement info tokens idx ≡ ok cost)
        × SameGas
            (unit ∷ [])
            ((counter + 1) % 2 ^ 64 ∷ [])
            (eval_withdraw_gas info tokens idx costs (unit ∷ Value.u64 gas ∷ []))
            (build_withdraw_gas m (some rt) (some cost) (counter ∷ gas ∷ []))
        × SameGas
            (unit ∷ [])
            ((counter + 1) % 2 ^ 64 ∷ [])
            (eval_builtin_withdraw_gas info tokens idx
              (unit ∷ Value.u64 gas ∷ Value.builtin_costs costs ∷ []))
            (build_builtin_withdraw_gas m
              (some rt)
              (some cost)
              rt.load
              (counter ∷ gas ∷ rt.get_costs_builtin ∷ []))
        × SameGas [] []
            (eval_redeposit_gas info tokens idx costs (Value.u64 gas ∷ []))
            (build_redeposit_gas m (some rt) (some cost) (gas ∷ []))
  unfolding eval_withdraw_gas eval_builtin_withdraw_gas eval_redeposit_gas
  gas-SameGas counter gas hc hg =
      let costed = get_gas_costs_for_statement-Costed info tokens idx solved priced in
      let found = costs-same info tokens idx costed.cost costed.found in
      let total = total-same costs costed.cost costed.payable in
      (
        costed.cost,
        costed.found,
        paid_same costed.cost _ gas hg (rw (found, total) refl)
            (build_withdraw_gas-pay laws rt memory costed.cost costed.payable counter gas hc hg),
        paid_same costed.cost _ gas hg (rw (found, total) refl) (
            build_builtin_withdraw_gas-pay laws rt memory costed.cost costed.payable counter gas hc
              hg),
        record {
          branch = 0;
          gas = min (gas + word_charge costs costed.cost) (2 ^ 64 - 1);
          gas_lt = omega arith;
          interpreted = rw (found, total) refl;
          compiled = build_redeposit_gas-min laws rt memory costed.cost costed.payable gas hg;
        },
      )

-- ===== src/Libfuncs/Gas/Laws.antt =====
-- src/libfuncs/gas.rs: what the builders' code does with the gas counter.
use cairo_native.Prelude.{
  ℕ, zero, suc, min, ◌+◌, ◌-◌, ◌*◌, ◌/◌, ◌%◌, ◌^◌, ◌<◌, ◌≤◌, ◌≡◌, ◌∙◌, refl, ap, arith, leb, le→leb,
  if◌then◌else◌, [], ◌∷◌, some, false,
}
use native.Mathlib.Nat.{mod-add-div', mod-lt}
use cairo_native.Error.{Result, ok, ◌>>=◌}
use cairo_native.Mlir.{Mlir, IsMlir, uge}
use cairo_native.Utils.BuiltinCosts.{BuiltinCosts}
use cairo_native.Metadata.Gas.{GasCost}
use cairo_native.Libfuncs.Counter.{
  Jump, increment_builtin_counter, increment_builtin_counter_by_lem,
}
use cairo_native.Libfuncs.Gas.Build.{
  GasRuntime, build_withdraw_gas, build_builtin_withdraw_gas, build_redeposit_gas,
}
use cairo_native.Libfuncs.Gas.Cost.{HoldsCosts, Payable, charge, build_calculate_gas_cost_lem}

-- The counter is paid from, if it holds enough.
abbrev pub pay : (range_check gas cost : ℕ) → Jump
pay range_check gas cost =
    if leb cost gas then (0, range_check ∷ (gas - cost) ∷ []) else (1, range_check ∷ gas ∷ [])

-- The sum of the prices as a word.
abbrev pub word_charge : BuiltinCosts → GasCost → ℕ
word_charge costs cost = charge costs cost % 2 ^ 64

word_charge_lt : (costs : BuiltinCosts) (cost : GasCost) → word_charge costs cost < 2 ^ 64
word_charge_lt costs cost = omega arith

times_suc : (n c : ℕ) → suc n * c ≡ c + n * c
times_suc n c = grind arith

module _ (m : Mlir) (rt : GasRuntime) (cost : GasCost) where
  -- The redeposit of what a withdrawal that has succeeded took.
  abbrev pub give_back : Jump → Result Jump
  give_back (zero, range_check ∷ gas ∷ []) = build_redeposit_gas m (some rt) (some cost) (gas ∷ [])
  give_back jump = ok jump

  abbrev pub withdraw_redeposit : (counter gas : ℕ) → Result Jump
  withdraw_redeposit counter gas =
      build_withdraw_gas m (some rt) (some cost) (counter ∷ gas ∷ []) >>= give_back

  -- Withdrawals one after the other: `n` of them succeed, the next does not.
  pub data RunsOut : ℕ → (counter gas : ℕ) → Type 0 where
    out_of_gas :
        {counter gas : ℕ} (counter' : ℕ)
        → build_withdraw_gas m (some rt) (some cost) (counter ∷ gas ∷ [])
          ≡ ok (1, counter' ∷ gas ∷ [])
        → RunsOut 0 counter gas
    paid :
        {n counter gas : ℕ} (counter' gas' : ℕ)
        → build_withdraw_gas m (some rt) (some cost) (counter ∷ gas ∷ [])
          ≡ ok (0, counter' ∷ gas' ∷ [])
        → RunsOut n counter' gas'
        → RunsOut (suc n) counter gas

module _ {m : Mlir} (laws : IsMlir m) (rt : GasRuntime) {costs : BuiltinCosts}
    (memory : HoldsCosts (rt.load rt.get_costs_builtin) costs) (cost : GasCost)
    (payable : Payable cost) where
  pub build_withdraw_gas-pay :
      (counter gas : ℕ)
      → counter < 2 ^ 64
      → gas < 2 ^ 64
      → build_withdraw_gas m (some rt) (some cost) (counter ∷ gas ∷ [])
        ≡ ok (pay ((counter + 1) % 2 ^ 64) gas (word_charge costs cost))
  unfolding build_withdraw_gas increment_builtin_counter
  build_withdraw_gas-pay counter gas hc hg =
      rw
        (
          increment_builtin_counter_by_lem laws counter 1 hc (omega arith),
          build_calculate_gas_cost_lem laws memory cost payable,
          laws.cmpi_lem uge 64 gas _ hg (word_charge_lt costs cost),
          laws.usub_sat_lem 64 gas _ hg (word_charge_lt costs cost),
        )
        refl

  pub build_builtin_withdraw_gas-pay :
      (counter gas : ℕ)
      → counter < 2 ^ 64
      → gas < 2 ^ 64
      → build_builtin_withdraw_gas m
          (some rt)
          (some cost)
          rt.load
          (counter ∷ gas ∷ rt.get_costs_builtin ∷ [])
        ≡ ok (pay ((counter + 1) % 2 ^ 64) gas (word_charge costs cost))
  unfolding build_builtin_withdraw_gas increment_builtin_counter
  build_builtin_withdraw_gas-pay counter gas hc hg =
      rw
        (
          increment_builtin_counter_by_lem laws counter 1 hc (omega arith),
          build_calculate_gas_cost_lem laws memory cost payable,
          laws.cmpi_lem uge 64 gas _ hg (word_charge_lt costs cost),
          laws.usub_sat_lem 64 gas _ hg (word_charge_lt costs cost),
        )
        refl

  pub build_redeposit_gas-min :
      (gas : ℕ)
      → gas < 2 ^ 64
      → build_redeposit_gas m (some rt) (some cost) (gas ∷ [])
        ≡ ok (0, min (gas + word_charge costs cost) (2 ^ 64 - 1) ∷ [])
  unfolding build_redeposit_gas
  build_redeposit_gas-min gas hg =
      rw
        (
          build_calculate_gas_cost_lem laws memory cost payable,
          laws.uadd_sat_lem 64 gas _ hg (word_charge_lt costs cost),
        )
        refl

  -- For a cost of priced tokens that the gas counter can pay, code that withdraws the cost and then
  -- redeposits it leaves the gas counter as it was.
  pub withdraw-redeposit :
      (counter gas : ℕ)
      → counter < 2 ^ 64
      → gas < 2 ^ 64
      → word_charge costs cost ≤ gas
      → withdraw_redeposit m rt cost counter gas ≡ ok (0, gas ∷ [])
  withdraw-redeposit counter gas hc hg enough =
      rw
        (
          build_withdraw_gas-pay counter gas hc hg,
          le→leb _ _ enough,
          build_redeposit_gas-min (gas - word_charge costs cost) (omega (arith, hg)),
        )
        (ap (λ n. ok (0, n ∷ [])) (ground (arith, enough, hg)))

  turns :
      (n counter gas : ℕ)
      → counter < 2 ^ 64
      → gas < 2 ^ 64
      → n * word_charge costs cost ≤ gas
      → gas < suc n * word_charge costs cost
      → RunsOut m rt cost n counter gas
  turns zero counter gas hc hg le lt =
      let short : leb (word_charge costs cost) gas ≡ false = ground (arith, lt) in
      out_of_gas ((counter + 1) % 2 ^ 64) (build_withdraw_gas-pay counter gas hc hg ∙ rw short refl)
  turns (suc n) counter gas hc hg le lt =
      let c = word_charge costs cost in
      let enough : c ≤ gas = omega (arith, le, times_suc n c) in
      let rest : RunsOut m rt cost n ((counter + 1) % 2 ^ 64) (gas - c) =
        turns n ((counter + 1) % 2 ^ 64) (gas - c) (omega arith) (omega (arith, hg))
          (omega (arith, le, times_suc n c))
          (omega (arith, lt, enough, times_suc n c, times_suc (suc n) c)) in
      paid ((counter + 1) % 2 ^ 64) (gas - c)
        (build_withdraw_gas-pay counter gas hc hg ∙ rw (le→leb _ _ enough) refl) rest

  -- A loop that withdraws on each turn a cost of priced tokens which is not zero takes the branch
  -- for too little gas, after exactly as many turns as the cost goes into the gas counter.
  pub withdraw_gas-RunsOut :
      (counter gas : ℕ)
      → counter < 2 ^ 64
      → gas < 2 ^ 64
      → 0 < word_charge costs cost
      → RunsOut m rt cost (gas / word_charge costs cost) counter gas
  withdraw_gas-RunsOut counter gas hc hg positive =
      let c = word_charge costs cost in
      let parts = mod-add-div' gas c in
      turns (gas / c) counter gas hc hg (omega (arith, parts))
        (omega (arith, parts, mod-lt gas positive, times_suc (gas / c) c))

-- ===== src/Libfuncs/Gas/Examples.antt =====
-- Gas at concrete prices: a statement costs two steps at 100 each and one Pedersen hash at 4050.
use cairo_native.Prelude.{ℕ, zero, suc, ◌≡◌, refl, arith, List, [], ◌∷◌}
use cairo_native.Error.{ok}
use cairo_native.Mlir.Wrapping.{wrapping, wrapping-IsMlir}
use cairo_native.Utils.BuiltinCosts.{BuiltinCosts, words, const_token, pedersen_token}
use cairo_native.Metadata.Gas.{GasCost}
use cairo_native.Libfuncs.Gas.Build.{GasRuntime}
use cairo_native.Libfuncs.Gas.Cost.{HoldsCosts}
use cairo_native.Libfuncs.Gas.Laws.{
  withdraw_redeposit, withdraw-redeposit, RunsOut, withdraw_gas-RunsOut,
}

abbrev pub prices : BuiltinCosts
prices = record {
  const = 100;
  pedersen = 4050;
  bitwise = 583;
  ecop = 4085;
  poseidon = 491;
  add_mod = 230;
  mul_mod = 604;
  blake = 3334;
}

abbrev nth_or_zero : List ℕ → ℕ → ℕ
nth_or_zero [] i = 0
nth_or_zero (x ∷ xs) zero = x
nth_or_zero (x ∷ xs) (suc i) = nth_or_zero xs i

-- The words at every address.
abbrev pub prices_at : ℕ → ℕ → ℕ
prices_at pointer i = nth_or_zero (words prices) i

abbrev pub runtime : GasRuntime
runtime = record { get_costs_builtin = 16; load = prices_at }

pub prices-HoldsCosts : HoldsCosts (prices_at 16) prices
prices-HoldsCosts = record {
  holds = (refl, (refl, (refl, (refl, (refl, (refl, (refl, (refl, tt))))))));
  bounded = (
    omega arith,
    (
      omega arith,
      (omega arith, (omega arith, (omega arith, (omega arith, (omega arith, (omega arith, tt)))))),
    ),
  );
}

abbrev two_steps_and_a_hash : GasCost
two_steps_and_a_hash = (2, const_token) ∷ (1, pedersen_token) ∷ []

withdraw-redeposit_example :
    withdraw_redeposit wrapping runtime two_steps_and_a_hash 7 5000 ≡ ok (0, 5000 ∷ [])
withdraw-redeposit_example =
    withdraw-redeposit wrapping-IsMlir runtime prices-HoldsCosts two_steps_and_a_hash
      (omega arith, tt, (omega arith, tt, tt)) 7 5000 (omega arith) (omega arith) (omega arith)

withdraw_gas-RunsOut_example : RunsOut wrapping runtime two_steps_and_a_hash 2 7 10000
withdraw_gas-RunsOut_example =
    withdraw_gas-RunsOut wrapping-IsMlir runtime prices-HoldsCosts two_steps_and_a_hash
      (omega arith, tt, (omega arith, tt, tt)) 7 10000 (omega arith) (omega arith) (omega arith)

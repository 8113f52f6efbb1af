-- ===== src/Metadata/Gas/Laws.antt =====
-- src/metadata/gas.rs: the costs of a statement are words of tokens that have prices, and what is
-- left for a function.
use cairo_native.Prelude.{
  ℕ, ◌^◌, ◌<◌, ◌≡◌, refl, arith, ltb, List, [], ◌∷◌, Option, none, some, Bool-cases, inl, inr,
}
use cairo_native.Prelude.Int.{ℤ, pos, negsuc}
use cairo_native.Error.{Result, ok, err, panic}
use cairo_native.Utils.BuiltinCosts.{CostTokenType}
use cairo_native.Metadata.Gas.{
  GasInfo, GasCost, get_gas_cost_for_statement_and_cost_token_type, get_gas_costs_for_statement,
  push_cost,
}
use cairo_native.Libfuncs.Gas.Cost.{HasPrice, Payable}

-- The solution has words that are not negative.
abbrev pub IsCount : Option ℤ → Type 0
IsCount none = Unit
IsCount (some (pos n)) = n < 2 ^ 63
IsCount (some (negsuc n)) = ⊥

abbrev pub Solved : GasInfo → Type 0
Solved info = (idx : ℕ) (t : CostTokenType) → IsCount (info.variable_values idx t)

abbrev pub AllPriced : List CostTokenType → Type 0
AllPriced [] = Unit
AllPriced (t ∷ ts) = HasPrice t × AllPriced ts

-- There are costs, and they can be paid.
pub record Costed (result : Result GasCost) : Type 0 where
  pub cost : GasCost
  pub found : result ≡ ok cost
  pub payable : Payable cost

-- The number of tokens of one kind, and what it does to the costs of the others.
record Counted (t : CostTokenType) (result : Result (Option ℕ)) : Type 0 where
  count : Option ℕ
  found : result ≡ ok count
  payable : (rest : GasCost) → Payable rest → Payable (push_cost count t rest)

push_cost-Payable :
    (count : ℕ) (t : CostTokenType) (rest : GasCost)
    → count < 2 ^ 63
    → HasPrice t
    → Payable rest
    → Payable (push_cost (some count) t rest)
push_cost-Payable count t rest h priced payable = elim (Bool-cases (ltb 0 count)) [
  | inl e ↦ rw e (omega (arith, h), priced, payable)
  | inr e ↦ rw e payable
]

count-Counted :
    (info : GasInfo) (idx : ℕ) (t : CostTokenType)
    → Solved info
    → HasPrice t
    → Counted t (get_gas_cost_for_statement_and_cost_token_type info idx t)
unfolding get_gas_cost_for_statement_and_cost_token_type
count-Counted info idx t solved priced = go (info.variable_values idx t) (solved idx t)
  where
    go :
        (found : Option ℤ)
        → IsCount found
        → Counted t (elim found [
          | none ↦ ok none
          | some (pos n) ↦ ok (some n)
          | some (negsuc n) ↦ err panic
        ])
    go none counted = record { count = none; found = refl; payable = λ rest p. p }
    go (some (pos n)) counted = record {
      count = some n;
      found = refl;
      payable = λ rest p. push_cost-Payable n t rest counted priced p;
    }
    go (some (negsuc n)) counted = absurd counted

-- Where the gas equations have a solution in words that are not negative, and the tokens of the
-- machine all have prices, each statement has costs: words of tokens with prices.
pub get_gas_costs_for_statement-Costed :
    (info : GasInfo) (tokens : List CostTokenType) (idx : ℕ)
    → Solved info
    → AllPriced tokens
    → Costed (get_gas_costs_for_statement info tokens idx)
unfolding get_gas_costs_for_statement
get_gas_costs_for_statement-Costed info [] idx solved priced = record {
  cost = [];
  found = refl;
  payable = tt;
}
get_gas_costs_for_statement-Costed info (t ∷ tokens) idx solved (h, priced) =
    let later = get_gas_costs_for_statement-Costed info tokens idx solved priced in
    let counted = count-Counted info idx t solved h in
    record {
      cost = push_cost counted.count t later.cost;
      found = rw (counted.found, later.found) refl;
      payable = counted.payable later.cost later.payable;
    }

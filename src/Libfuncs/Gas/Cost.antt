-- ===== src/Libfuncs/Gas/Cost.antt =====
-- src/libfuncs/gas.rs: what a statement costs.
use cairo_native.Prelude.{
  ℕ, suc, ap, ◌+◌, ◌*◌, ◌%◌, ◌^◌, ◌<◌, ◌≡◌, ◌∙◌, refl, arith, ◌==◌, List, [], ◌∷◌, Bool-cases, inl,
  inr, ==→eq,
}
use cairo_native.Error.{ok}
use cairo_native.Mlir.{Mlir, IsMlir}
use cairo_native.Utils.BuiltinCosts.{
  BuiltinCosts, CostTokenType, const_token, pedersen_token, bitwise_token, ec_op_token,
  poseidon_token, add_mod_token, mul_mod_token, blake_token, other_token, index_for_token_type,
  words,
}
use cairo_native.Metadata.Gas.{GasCost}
use cairo_native.Libfuncs.Gas.Build.{add_cost, add_costs, build_calculate_gas_cost}

-- The price of a kind of token, by name.
abbrev pub price : BuiltinCosts → CostTokenType → ℕ
price costs const_token = costs.const
price costs pedersen_token = costs.pedersen
price costs bitwise_token = costs.bitwise
price costs ec_op_token = costs.ecop
price costs poseidon_token = costs.poseidon
price costs add_mod_token = costs.add_mod
price costs mul_mod_token = costs.mul_mod
price costs blake_token = costs.blake
price costs (other_token n) = 0

-- The sum of all prices, without bound.
abbrev pub charge : BuiltinCosts → GasCost → ℕ
charge costs [] = 0
charge costs ((count, token_type) ∷ rest) = count * price costs token_type + charge costs rest

abbrev pub HasPrice : CostTokenType → Type 0
HasPrice (other_token n) = ⊥
HasPrice _ = Unit

-- Every entry is a word of tokens that have a price.
abbrev pub Payable : GasCost → Type 0
Payable [] = Unit
Payable ((count, token_type) ∷ rest) = (count < 2 ^ 64) × HasPrice token_type × Payable rest

abbrev pub AllBelow : ℕ → List ℕ → Type 0
AllBelow n [] = Unit
AllBelow n (x ∷ xs) = (x < n) × AllBelow n xs

-- The words from a place of the memory on.
abbrev pub HoldsFrom : (ℕ → ℕ) → ℕ → List ℕ → Type 0
HoldsFrom load i [] = Unit
HoldsFrom load i (x ∷ xs) = (load i ≡ x) × HoldsFrom load (suc i) xs

-- The memory behind the pointer is the record of the prices, which are words.
pub record HoldsCosts (load : ℕ → ℕ) (costs : BuiltinCosts) : Type 0 where
  pub holds : HoldsFrom load 0 (words costs)
  pub bounded : AllBelow (2 ^ 64) (words costs)

pub later : (a b : ℕ) → (a + b % 2 ^ 64) % 2 ^ 64 ≡ (a + b) % 2 ^ 64
later a b = omega arith

pub sooner : (a b c : ℕ) → ((a + b) % 2 ^ 64 + c) % 2 ^ 64 ≡ (a + (b + c)) % 2 ^ 64
sooner a b c = omega arith

module _ {m : Mlir} (laws : IsMlir m) {load : ℕ → ℕ} {costs : BuiltinCosts}
    (memory : HoldsCosts load costs) where
  -- Where the price of a token lies.
  record Place (token_type : CostTokenType) : Type 0 where
    place : ℕ
    index : index_for_token_type token_type ≡ ok place
    place_lt : place < 2 ^ 64
    loaded : load place ≡ price costs token_type
    price_lt : price costs token_type < 2 ^ 64

  token-Place : (t : CostTokenType) → HasPrice t → Place t
  unfolding index_for_token_type
  token-Place const_token priced = record {
    place = 0;
    index = refl;
    place_lt = omega arith;
    loaded = memory.holds.0;
    price_lt = memory.bounded.0;
  }
  token-Place pedersen_token priced = record {
    place = 1;
    index = refl;
    place_lt = omega arith;
    loaded = memory.holds.1.0;
    price_lt = memory.bounded.1.0;
  }
  token-Place bitwise_token priced = record {
    place = 2;
    index = refl;
    place_lt = omega arith;
    loaded = memory.holds.1.1.0;
    price_lt = memory.bounded.1.1.0;
  }
  token-Place ec_op_token priced = record {
    place = 3;
    index = refl;
    place_lt = omega arith;
    loaded = memory.holds.1.1.1.0;
    price_lt = memory.bounded.1.1.1.0;
  }
  token-Place poseidon_token priced = record {
    place = 4;
    index = refl;
    place_lt = omega arith;
    loaded = memory.holds.1.1.1.1.0;
    price_lt = memory.bounded.1.1.1.1.0;
  }
  token-Place add_mod_token priced = record {
    place = 5;
    index = refl;
    place_lt = omega arith;
    loaded = memory.holds.1.1.1.1.1.0;
    price_lt = memory.bounded.1.1.1.1.1.0;
  }
  token-Place mul_mod_token priced = record {
    place = 6;
    index = refl;
    place_lt = omega arith;
    loaded = memory.holds.1.1.1.1.1.1.0;
    price_lt = memory.bounded.1.1.1.1.1.1.0;
  }
  token-Place blake_token priced = record {
    place = 7;
    index = refl;
    place_lt = omega arith;
    loaded = memory.holds.1.1.1.1.1.1.1.0;
    price_lt = memory.bounded.1.1.1.1.1.1.1.0;
  }
  token-Place (other_token n) priced = absurd priced

  -- An entry adds its cost to the total.
  add_cost_lem :
      (count total : ℕ) (token_type : CostTokenType)
      → count < 2 ^ 64
      → HasPrice token_type
      → total < 2 ^ 64
      → add_cost m load (count, token_type) total
        ≡ ok ((total + count * price costs token_type) % 2 ^ 64)
  unfolding add_cost
  add_cost_lem count total token_type h priced ht = elim (Bool-cases (count == 0)) [
    | inl e ↦ rw (e, ==→eq count 0 e) (ap ok (omega (arith, ht)))
    | inr e ↦
        let p = token-Place token_type priced in
        let product : count * price costs token_type % 2 ^ 64 < 2 ^ 64 = omega arith in
        rw
          (
            e,
            laws.const_int_pos 64 count h,
            p.index,
            laws.const_int_pos 64 p.place p.place_lt,
            p.loaded,
            laws.muli_lem 64 count _ h p.price_lt,
            laws.addi_lem 64 total _ ht product,
          )
          (ap ok (later total (count * price costs token_type)))
  ]

  add_costs_lem :
      (cost : GasCost) (total : ℕ)
      → Payable cost
      → total < 2 ^ 64
      → add_costs m load cost total ≡ ok ((total + charge costs cost) % 2 ^ 64)
  unfolding add_costs
  add_costs_lem [] total payable h = ap ok (omega (arith, h))
  add_costs_lem ((count, token_type) ∷ rest) total (hc, priced, payable) h =
      let c = count * price costs token_type in
      rw
        (
          add_cost_lem count total token_type hc priced h,
          add_costs_lem rest ((total + c) % 2 ^ 64) payable (omega arith),
        )
        (ap ok (sooner total c (charge costs rest)))

  -- For entries with prices, the code computes the sum of the prices modulo 2 ^ 64.
  pub build_calculate_gas_cost_lem :
      (cost : GasCost)
      → Payable cost
      → build_calculate_gas_cost m load cost ≡ ok (charge costs cost % 2 ^ 64)
  unfolding build_calculate_gas_cost
  build_calculate_gas_cost_lem cost payable =
      rw (laws.const_int_pos 64 0 (omega arith))
        (add_costs_lem cost 0 payable (omega arith) ∙ ap ok (omega arith))

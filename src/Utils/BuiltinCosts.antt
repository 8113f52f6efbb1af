-- ===== src/Utils/BuiltinCosts.antt =====
-- src/utils.rs: the price of each kind of token that a statement costs.
use cairo_native.Prelude.{ℕ, List, [], ◌∷◌}
use cairo_native.Error.{Result, ok, err, native_assert}

-- Sierra's `CostTokenType`: the kinds that have a price, and the kinds that only a machine for Cairo
-- assembly knows.
pub data CostTokenType : Type 0 where
  const_token pedersen_token bitwise_token ec_op_token : CostTokenType
  poseidon_token add_mod_token mul_mod_token blake_token : CostTokenType
  other_token : ℕ → CostTokenType

pub record BuiltinCosts : Type 0 where
  pub const : ℕ
  pub pedersen : ℕ
  pub bitwise : ℕ
  pub ecop : ℕ
  pub poseidon : ℕ
  pub add_mod : ℕ
  pub mul_mod : ℕ
  pub blake : ℕ

unfoldable pub index_for_token_type : CostTokenType → Result ℕ
index_for_token_type const_token = ok 0
index_for_token_type pedersen_token = ok 1
index_for_token_type bitwise_token = ok 2
index_for_token_type ec_op_token = ok 3
index_for_token_type poseidon_token = ok 4
index_for_token_type add_mod_token = ok 5
index_for_token_type mul_mod_token = ok 6
index_for_token_type blake_token = ok 7
index_for_token_type (other_token n) = err native_assert

-- The words of the record in memory, in the order of its fields (`repr(C)`).
abbrev pub words : BuiltinCosts → List ℕ
words costs =
    costs.const ∷ costs.pedersen ∷ costs.bitwise ∷ costs.ecop ∷ costs.poseidon ∷ costs.add_mod
    ∷ costs.mul_mod ∷ costs.blake ∷ []

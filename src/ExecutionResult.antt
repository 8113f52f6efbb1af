-- ===== src/ExecutionResult.antt =====
-- src/execution_result.rs and `Value` of src/values.rs: what a run of compiled code gives.
use cairo_native.Prelude.{ℕ, ◌+◌, List, Option}
use cairo_native.Prelude.Int.{ℤ}
use cairo_native.Utils.RangeExt.{Range}
use cairo_native.Starknet.Info.{Secp256Point}

-- The names that only serve printing are left out, and a hash map is a list of entries.
mutual
  pub data Value : Type 0 where
    felt252 : ℕ → Value
    bytes31 : List ℕ → Value
    array struct_value : ValueList → Value
    enum_value : ℕ → Value → Value
    felt252_dict : EntryList → Value
    uint8 uint16 uint32 uint64 uint128 : ℕ → Value
    sint8 sint16 sint32 sint64 sint128 : ℤ → Value
    ec_point ec_state : ℕ → ℕ → Value
    qm31 : ℕ → ℕ → ℕ → ℕ → Value
    secp256k1_point secp256r1_point : Secp256Point → Value
    bounded_int : ℕ → Range → Value
    int_range : Value → Value → Value
    null : Value

  pub data ValueList : Type 0 where
    nil : ValueList
    cons : Value → ValueList → ValueList

  pub data EntryList : Type 0 where
    no_entry : EntryList
    entry : ℕ → Value → EntryList → EntryList

-- The numbers of uses of the builtins, which are taken without the bound of a machine word.
pub record BuiltinStats : Type 0 where
  pub range_check : ℕ
  pub pedersen : ℕ
  pub bitwise : ℕ
  pub ec_op : ℕ
  pub poseidon : ℕ
  pub segment_arena : ℕ
  pub range_check96 : ℕ
  pub add_mod : ℕ
  pub mul_mod : ℕ
  pub blake : ℕ

abbrev pub add_stats : BuiltinStats → BuiltinStats → BuiltinStats
add_stats self rhs = record {
  range_check = self.range_check + rhs.range_check;
  pedersen = self.pedersen + rhs.pedersen;
  bitwise = self.bitwise + rhs.bitwise;
  ec_op = self.ec_op + rhs.ec_op;
  poseidon = self.poseidon + rhs.poseidon;
  segment_arena = self.segment_arena + rhs.segment_arena;
  range_check96 = self.range_check96 + rhs.range_check96;
  add_mod = self.add_mod + rhs.add_mod;
  mul_mod = self.mul_mod + rhs.mul_mod;
  blake = self.blake + rhs.blake;
}

pub record ExecutionResult : Type 0 where
  pub remaining_gas : Option ℕ
  pub return_value : Value
  pub builtin_stats : BuiltinStats

-- ===== src/Types/Defs.antt =====
-- The concrete types. Where Sierra names a type by its id and asks the program registry for it,
-- the type itself stands here: a program's types are finite trees.
use cairo_native.Prelude.{ℕ}
use cairo_native.Utils.RangeExt.{Range}

-- `StarknetTypeConcrete`
pub data StarknetTypeConcrete : Type 0 where
  class_hash contract_address storage_base_address storage_address : StarknetTypeConcrete
  system secp256_point sha256_state_handle sha512_state_handle : StarknetTypeConcrete

-- `CircuitTypeConcrete`
pub data CircuitTypeConcrete : Type 0 where
  add_mod mul_mod add_mod_gate sub_mod_gate mul_mod_gate inverse_gate : CircuitTypeConcrete
  u96_guarantee circuit_modulus circuit_input circuit_descriptor : CircuitTypeConcrete
  circuit_type circuit_failure_guarantee circuit_input_accumulator : CircuitTypeConcrete
  circuit_partial_outputs circuit_data circuit_outputs : CircuitTypeConcrete
  u96_limbs_less_than_guarantee : ℕ → CircuitTypeConcrete

-- `CoreTypeConcrete`, and the member types of a structure or an enumeration.
mutual
  pub data CoreTypeConcrete : Type 0 where
    uint8 uint16 uint32 uint64 uint128 uint128_mul_guarantee : CoreTypeConcrete
    sint8 sint16 sint32 sint64 sint128 : CoreTypeConcrete
    felt252 bytes31 qm31 ec_point ec_state : CoreTypeConcrete
    bitwise ec_op gas_builtin builtin_costs range_check range_check96 : CoreTypeConcrete
    pedersen poseidon coupon segment_arena gas_reserve blake : CoreTypeConcrete
    bounded_int bounded_int_guarantee : Range → CoreTypeConcrete
    starknet : StarknetTypeConcrete → CoreTypeConcrete
    circuit : CircuitTypeConcrete → CoreTypeConcrete
    array boxed nullable felt252_dict felt252_dict_entry : CoreTypeConcrete → CoreTypeConcrete
    squashed_felt252_dict span int_range : CoreTypeConcrete → CoreTypeConcrete
    non_zero uninitialized snapshot const_type : CoreTypeConcrete → CoreTypeConcrete
    struct_type enum_type : TypeList → CoreTypeConcrete

  pub data TypeList : Type 0 where
    nil : TypeList
    cons : CoreTypeConcrete → TypeList → TypeList

-- ===== src/Emu/Is.antt =====
-- debug_utils/sierra-emu/src/value.rs: whether a value is one of a type. Two types are the same if
-- their ids are, which is the test `same`.
use cairo_native.Prelude.{Bool, true, false, ◌&&◌}
use cairo_native.Prelude.Int.{eqb_ℤ}
use cairo_native.Utils.RangeExt.{Range}
use cairo_native.Types.{StarknetTypeConcrete, CircuitTypeConcrete, CoreTypeConcrete, TypeList}
use cairo_native.Emu.Value.{Value, ValueList}

abbrev pub eqb_range : Range → Range → Bool
eqb_range r s = eqb_ℤ r.lower s.lower && eqb_ℤ r.upper s.upper

abbrev pub is_unit : Value → Bool
is_unit Value.unit = true
is_unit _ = false

abbrev pub is_felt : Value → Bool
is_felt (Value.felt n) = true
is_felt _ = false

abbrev pub is_u128 : Value → Bool
is_u128 (Value.u128 n) = true
is_u128 _ = false

abbrev pub is_struct : Value → Bool
is_struct (Value.struct_value vs) = true
is_struct _ = false

abbrev pub is_circuit : Value → Bool
is_circuit (Value.circuit ns) = true
is_circuit _ = false

-- The types of Starknet: felts, the builtin, and handles that are structures.
abbrev pub is_starknet : Value → StarknetTypeConcrete → Bool
is_starknet v StarknetTypeConcrete.class_hash = is_felt v
is_starknet v StarknetTypeConcrete.contract_address = is_felt v
is_starknet v StarknetTypeConcrete.storage_base_address = is_felt v
is_starknet v StarknetTypeConcrete.storage_address = is_felt v
is_starknet v StarknetTypeConcrete.system = is_unit v
is_starknet v StarknetTypeConcrete.secp256_point = is_struct v
is_starknet v StarknetTypeConcrete.sha256_state_handle = is_struct v
is_starknet v StarknetTypeConcrete.sha512_state_handle = is_struct v

abbrev pub is_circuit_type : Value → CircuitTypeConcrete → Bool
is_circuit_type v CircuitTypeConcrete.circuit_type = is_circuit v
is_circuit_type v CircuitTypeConcrete.circuit_data = is_circuit v
is_circuit_type v CircuitTypeConcrete.circuit_input_accumulator = is_circuit v
is_circuit_type (Value.circuit_outputs ns n) CircuitTypeConcrete.circuit_outputs = true
is_circuit_type _ CircuitTypeConcrete.circuit_outputs = false
is_circuit_type (Value.circuit_modulus n) CircuitTypeConcrete.circuit_modulus = true
is_circuit_type _ CircuitTypeConcrete.circuit_modulus = false
is_circuit_type v CircuitTypeConcrete.u96_guarantee = is_u128 v
is_circuit_type v CircuitTypeConcrete.circuit_input = is_struct v
is_circuit_type v (CircuitTypeConcrete.u96_limbs_less_than_guarantee n) = is_struct v
is_circuit_type v _ = is_unit v

module _ (same : CoreTypeConcrete → CoreTypeConcrete → Bool) where
  -- A `todo!` of the source is `false`, as its panic stops the callers, which all assert the test.
  unfoldable mutual
    pub is : Value → CoreTypeConcrete → Bool
    is (Value.array ty xs) (CoreTypeConcrete.array t) = same ty t
    is (Value.bounded_int r a) (CoreTypeConcrete.bounded_int s) = eqb_range r s
    is (Value.bounded_int r a) (CoreTypeConcrete.bounded_int_guarantee s) = eqb_range r s
    is (Value.enum_value ty i v) (CoreTypeConcrete.enum_type ts) =
        same ty (CoreTypeConcrete.enum_type ts)
    is (Value.felt n) CoreTypeConcrete.felt252 = true
    is (Value.bytes31 n) CoreTypeConcrete.bytes31 = true
    is (Value.felt_dict ty xs n) (CoreTypeConcrete.felt252_dict t) = same ty t
    is (Value.u64 n) CoreTypeConcrete.gas_builtin = true
    is v (CoreTypeConcrete.non_zero t) = is v t
    is (Value.i128 a) CoreTypeConcrete.sint128 = true
    is (Value.i64 a) CoreTypeConcrete.sint64 = true
    is (Value.i32 a) CoreTypeConcrete.sint32 = true
    is (Value.i16 a) CoreTypeConcrete.sint16 = true
    is (Value.i8 a) CoreTypeConcrete.sint8 = true
    is v (CoreTypeConcrete.snapshot t) = is v t
    is v (CoreTypeConcrete.starknet s) = is_starknet v s
    is (Value.struct_value vs) (CoreTypeConcrete.struct_type ts) = all_are vs ts
    is v (CoreTypeConcrete.span t) = is v t
    is (Value.u8 n) CoreTypeConcrete.uint8 = true
    is (Value.u16 n) CoreTypeConcrete.uint16 = true
    is (Value.u32 n) CoreTypeConcrete.uint32 = true
    is (Value.u64 n) CoreTypeConcrete.uint64 = true
    is (Value.u128 n) CoreTypeConcrete.uint128 = true
    is v CoreTypeConcrete.range_check = is_unit v
    is v CoreTypeConcrete.segment_arena = is_unit v
    is v CoreTypeConcrete.range_check96 = is_unit v
    is v CoreTypeConcrete.coupon = is_unit v
    is v CoreTypeConcrete.bitwise = is_unit v
    is v (CoreTypeConcrete.boxed t) = is v t
    is v (CoreTypeConcrete.circuit c) = is_circuit_type v c
    is v (CoreTypeConcrete.const_type t) = is v t
    is v CoreTypeConcrete.ec_op = is_unit v
    is (Value.ec_point x y) CoreTypeConcrete.ec_point = true
    is (Value.ec_state x y z) CoreTypeConcrete.ec_state = true
    is (Value.builtin_costs ns) CoreTypeConcrete.builtin_costs = true
    is v CoreTypeConcrete.uint128_mul_guarantee = is_unit v
    is Value.null (CoreTypeConcrete.nullable t) = true
    is v (CoreTypeConcrete.nullable t) = is v t
    is (Value.uninitialized ty) (CoreTypeConcrete.uninitialized t) = true
    is (Value.felt_dict_entry ty xs n k) (CoreTypeConcrete.felt252_dict_entry t) = same ty t
    is (Value.felt_dict ty xs n) (CoreTypeConcrete.squashed_felt252_dict t) = same ty t
    is v CoreTypeConcrete.pedersen = is_unit v
    is v CoreTypeConcrete.poseidon = is_unit v
    is (Value.int_range x y) (CoreTypeConcrete.int_range t) = true
    is v CoreTypeConcrete.gas_reserve = is_u128 v
    is _ _ = false

    -- The members of a structure, as many as the types.
    pub all_are : ValueList → TypeList → Bool
    all_are ValueList.nil TypeList.nil = true
    all_are (ValueList.cons v vs) (TypeList.cons t ts) = is v t && all_are vs ts
    all_are _ _ = false

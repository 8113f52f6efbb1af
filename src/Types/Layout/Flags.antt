-- ===== src/Types/Layout/Flags.antt =====
-- src/types.rs: whether the values of a type have no size (is_zst), and whether they stay in memory
-- (is_memory_allocated).
use cairo_native.Prelude.{Bool, true, false, if◌then◌else◌}
use cairo_native.Error.{Result, ok, err, native_assert, ◌>>=◌}
use cairo_native.Types.Defs.{
  CoreTypeConcrete, TypeList, nil, cons, uint8, uint16, uint32, uint64, uint128,
  uint128_mul_guarantee, sint8, sint16, sint32, sint64, sint128, felt252, bytes31, qm31, ec_point,
  ec_state, bitwise, ec_op, gas_builtin, builtin_costs, range_check, range_check96, pedersen,
  poseidon, coupon, segment_arena, gas_reserve, blake, bounded_int, bounded_int_guarantee, starknet,
  circuit, array, boxed, nullable, felt252_dict, felt252_dict_entry, squashed_felt252_dict, span,
  int_range, non_zero, uninitialized, snapshot, const_type, struct_type, enum_type,
}
use cairo_native.Types.Layout.Types.{circuit_is_zst}

unfoldable mutual
  pub is_zst : CoreTypeConcrete → Result Bool
  is_zst bitwise = ok false
  is_zst ec_op = ok false
  is_zst range_check = ok false
  is_zst pedersen = ok false
  is_zst poseidon = ok false
  is_zst range_check96 = ok false
  is_zst segment_arena = ok false
  is_zst builtin_costs = ok false
  is_zst (array t) = ok false
  is_zst (boxed t) = ok false
  is_zst bytes31 = ok false
  is_zst ec_point = ok false
  is_zst ec_state = ok false
  is_zst felt252 = ok false
  is_zst gas_builtin = ok false
  is_zst uint8 = ok false
  is_zst uint16 = ok false
  is_zst uint32 = ok false
  is_zst uint64 = ok false
  is_zst uint128 = ok false
  is_zst sint8 = ok false
  is_zst sint16 = ok false
  is_zst sint32 = ok false
  is_zst sint64 = ok false
  is_zst sint128 = ok false
  is_zst (felt252_dict t) = ok false
  is_zst (felt252_dict_entry t) = ok false
  is_zst (squashed_felt252_dict t) = ok false
  is_zst (starknet info) = ok false
  is_zst (nullable t) = ok false
  is_zst qm31 = ok false
  is_zst (bounded_int r) = ok false
  is_zst (bounded_int_guarantee r) = ok false
  is_zst gas_reserve = ok false
  is_zst blake = ok false
  is_zst uint128_mul_guarantee = ok true
  is_zst coupon = ok true
  is_zst (non_zero t) = is_zst t
  is_zst (uninitialized t) = is_zst t
  is_zst (snapshot t) = is_zst t
  is_zst (const_type t) = is_zst t
  is_zst (int_range t) = is_zst t
  is_zst (enum_type ts) = variants_is_zst ts
  is_zst (struct_type ts) = members_is_zst ts
  is_zst (span t) = err native_assert
  is_zst (circuit info) = ok (circuit_is_zst info)

  pub variants_is_zst : TypeList → Result Bool
  variants_is_zst nil = ok true
  variants_is_zst (cons t nil) = is_zst t
  variants_is_zst (cons t (cons u us)) = ok false

  -- The loop over the members ends at the first that has a size.
  pub members_is_zst : TypeList → Result Bool
  members_is_zst nil = ok true
  members_is_zst (cons t ts) = do first ← is_zst t; if first then members_is_zst ts else ok false

unfoldable mutual
  pub is_memory_allocated : CoreTypeConcrete → Bool
  is_memory_allocated (enum_type ts) = variants_is_memory_allocated ts
  is_memory_allocated (struct_type ts) = members_is_memory_allocated ts
  is_memory_allocated (snapshot t) = is_memory_allocated t
  is_memory_allocated (const_type t) = is_memory_allocated t
  is_memory_allocated _ = false

  pub variants_is_memory_allocated : TypeList → Bool
  variants_is_memory_allocated nil = false
  variants_is_memory_allocated (cons t nil) = is_memory_allocated t
  variants_is_memory_allocated (cons t (cons u us)) = true

  pub members_is_memory_allocated : TypeList → Bool
  members_is_memory_allocated nil = false
  members_is_memory_allocated (cons t ts) =
      if is_memory_allocated t then true else members_is_memory_allocated ts

-- ===== src/Types/Layout/Types.antt =====
-- src/types.rs, src/types/circuit.rs: the layout of a type, whether it has no size, and whether
-- its values are kept in memory.
use cairo_native.Prelude.{
  ℕ, zero, suc, ◌+◌, ◌*◌, ◌^◌, ◌%◌, max, Bool, true, false, Option, none, some,
}
use cairo_native.Error.{Result, ok, err, native_assert, layout_error, ◌>>=◌}
use cairo_native.Num.Bits.{bits}
use cairo_native.Utils.RangeExt.{repr_bit_width}
use cairo_native.Types.Defs.{
  StarknetTypeConcrete, CircuitTypeConcrete, CoreTypeConcrete, TypeList, nil, cons, class_hash,
  contract_address, storage_base_address, storage_address, system, secp256_point,
  sha256_state_handle, sha512_state_handle, add_mod, mul_mod, add_mod_gate, sub_mod_gate,
  mul_mod_gate, inverse_gate, u96_guarantee, circuit_modulus, circuit_input, circuit_descriptor,
  circuit_type, circuit_failure_guarantee, circuit_input_accumulator, circuit_data, circuit_outputs,
  u96_limbs_less_than_guarantee, uint8, uint16, uint32, uint64, uint128, uint128_mul_guarantee,
  sint8, sint16, sint32, sint64, sint128, felt252, bytes31, qm31, ec_point, ec_state, bitwise,
  ec_op, gas_builtin, builtin_costs, range_check, range_check96, pedersen, poseidon, coupon,
  segment_arena, gas_reserve, blake, bounded_int, bounded_int_guarantee, starknet, circuit, array,
  boxed, nullable, felt252_dict, felt252_dict_entry, squashed_felt252_dict, span, int_range,
  non_zero, uninitialized, snapshot, const_type, struct_type, enum_type,
}
use cairo_native.Types.Layout.Defs.{
  Layout, from_size_align, extend, pad_to_align, unit_layout, word_layout, get_integer_layout,
  layout_repeat,
}

abbrev pub count : TypeList → ℕ
count nil = 0
count (cons t ts) = 1 + count ts

-- `next_power_of_two().trailing_zeros()`: the number of bits of a tag, an
-- `u32`.
abbrev pub tag_bits : ℕ → ℕ
tag_bits zero = 0
tag_bits (suc n) = bits n % 2 ^ 32

abbrev pub extended : Layout → Layout → Result Layout
extended l next = do (layout, _) ← extend l next; ok layout

abbrev pub repeated : Layout → ℕ → Result Layout
repeated l n = do (layout, _) ← layout_repeat l n; ok layout

abbrev pub padded : Result Layout → Result Layout
padded r = do l ← r; ok (pad_to_align l)

abbrev pub starknet_layout : StarknetTypeConcrete → Result Layout
starknet_layout class_hash = ok (get_integer_layout 252)
starknet_layout contract_address = ok (get_integer_layout 252)
starknet_layout storage_base_address = ok (get_integer_layout 252)
starknet_layout storage_address = ok (get_integer_layout 252)
starknet_layout system = ok word_layout
starknet_layout secp256_point = do
  pair ← extended (get_integer_layout 256) (get_integer_layout 256)
  extended pair (get_integer_layout 1)
starknet_layout sha256_state_handle = ok word_layout
starknet_layout sha512_state_handle = ok word_layout

abbrev pub circuit_layout : CircuitTypeConcrete → Result Layout
circuit_layout add_mod = ok (get_integer_layout 64)
circuit_layout mul_mod = ok (get_integer_layout 64)
circuit_layout circuit_modulus = ok (get_integer_layout 384)
circuit_layout u96_guarantee = ok (get_integer_layout 96)
circuit_layout (u96_limbs_less_than_guarantee limb_count) =
    repeated (get_integer_layout 96) (2 * limb_count)
circuit_layout circuit_failure_guarantee = repeated (get_integer_layout 96) 8
circuit_layout circuit_data = ok word_layout
circuit_layout circuit_outputs = do
  u384_struct_layout ← repeated (get_integer_layout 96) 4
  extended word_layout u384_struct_layout
circuit_layout circuit_input_accumulator = extended (get_integer_layout 64) word_layout
circuit_layout _ = ok unit_layout

abbrev pub circuit_is_zst : CircuitTypeConcrete → Bool
circuit_is_zst add_mod_gate = true
circuit_is_zst sub_mod_gate = true
circuit_is_zst mul_mod_gate = true
circuit_is_zst circuit_input = true
circuit_is_zst inverse_gate = true
circuit_is_zst circuit_type = true
circuit_is_zst circuit_descriptor = true
circuit_is_zst _ = false

-- The match of `layout`, before its result is padded: the layouts of the types inside are padded.
-- A width is an `u32`.
unfoldable mutual
  pub raw_layout : CoreTypeConcrete → Result Layout
  raw_layout (array t) = do
    since ← extended word_layout (get_integer_layout 32)
    until ← extended since (get_integer_layout 32)
    extended until (get_integer_layout 32)
  raw_layout bitwise = ok word_layout
  raw_layout (boxed t) = ok word_layout
  raw_layout ec_op = ok word_layout
  raw_layout ec_point = repeated (get_integer_layout 252) 2
  raw_layout ec_state = repeated (get_integer_layout 252) 3
  raw_layout felt252 = ok (get_integer_layout 252)
  raw_layout gas_builtin = ok (get_integer_layout 64)
  raw_layout builtin_costs = ok word_layout
  raw_layout uint8 = ok (get_integer_layout 8)
  raw_layout uint16 = ok (get_integer_layout 16)
  raw_layout uint32 = ok (get_integer_layout 32)
  raw_layout uint64 = ok (get_integer_layout 64)
  raw_layout uint128 = ok (get_integer_layout 128)
  raw_layout uint128_mul_guarantee = ok unit_layout
  raw_layout (non_zero t) = padded (raw_layout t)
  raw_layout (nullable t) = ok word_layout
  raw_layout range_check = ok word_layout
  raw_layout (uninitialized t) = padded (raw_layout t)
  raw_layout (enum_type ts) =
      let tag_layout = get_integer_layout (tag_bits (count ts)) in
      variants_layout tag_layout tag_layout ts
  raw_layout (struct_type ts) = do
    members ← members_layout none ts
    ok (elim members [ none ↦ unit_layout | some l ↦ l ])
  raw_layout (felt252_dict t) = ok word_layout
  raw_layout (felt252_dict_entry t) = extended word_layout word_layout
  raw_layout (squashed_felt252_dict t) = ok word_layout
  raw_layout pedersen = ok word_layout
  raw_layout poseidon = ok word_layout
  raw_layout (span t) = err native_assert
  raw_layout (starknet info) = starknet_layout info
  raw_layout segment_arena = ok word_layout
  raw_layout (snapshot t) = padded (raw_layout t)
  raw_layout sint8 = ok (get_integer_layout 8)
  raw_layout sint16 = ok (get_integer_layout 16)
  raw_layout sint32 = ok (get_integer_layout 32)
  raw_layout sint64 = ok (get_integer_layout 64)
  raw_layout sint128 = ok (get_integer_layout 128)
  raw_layout bytes31 = ok (get_integer_layout 248)
  raw_layout (bounded_int r) = ok (get_integer_layout (repr_bit_width r % 2 ^ 32))
  raw_layout (bounded_int_guarantee r) = ok (get_integer_layout (repr_bit_width r % 2 ^ 32))
  raw_layout qm31 = repeated (get_integer_layout 31) 4
  raw_layout gas_reserve = ok (get_integer_layout 128)
  raw_layout (const_type t) = padded (raw_layout t)
  raw_layout coupon = ok unit_layout
  raw_layout range_check96 = ok (get_integer_layout 64)
  raw_layout (circuit info) = circuit_layout info
  raw_layout (int_range t) = do inner ← padded (raw_layout t); extended inner inner
  raw_layout blake = ok (get_integer_layout 64)

  -- The fold over the variants: each stands behind the tag.
  pub variants_layout : Layout → Layout → TypeList → Result Layout
  variants_layout tag_layout acc nil = ok acc
  variants_layout tag_layout acc (cons t ts) = do
    payload ← padded (raw_layout t)
    l ← extended tag_layout payload
    wider ← from_size_align layout_error (max acc.size l.size) (max acc.align l.align)
    variants_layout tag_layout wider ts

  -- The fold over the members: each stands behind those before it.
  pub members_layout : Option Layout → TypeList → Result (Option Layout)
  members_layout acc nil = ok acc
  members_layout none (cons t ts) = do first ← padded (raw_layout t); members_layout (some first) ts
  members_layout (some l) (cons t ts) = do
    next ← padded (raw_layout t)
    longer ← extended l next
    members_layout (some longer) ts

unfoldable pub layout : CoreTypeConcrete → Result Layout
unfolding raw_layout
layout t = padded (raw_layout t)

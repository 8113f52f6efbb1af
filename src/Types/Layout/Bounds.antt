-- ===== src/Types/Layout/Bounds.antt =====
-- Every layout of a type is well formed: the folds over variants and members keep it so.
use cairo_native.Prelude.{
  ℕ, zero, suc, ◌+◌, ◌*◌, ◌%◌, ◌^◌, ◌≡◌, ◌≢◌, ◌≤◌, ◌<◌, max, Option, none, some, arith,
}
use mathlib.Core.Path.{subst}
use cairo_native.Error.{Error, Result, ok, err, ◌>>=◌}
use cairo_native.Num.Bits.{bits}
use cairo_native.Utils.RangeExt.{repr_bit_width}
use cairo_native.Types.Layout.Defs.{Layout, unit_layout, word_layout, get_integer_layout}
use cairo_native.Types.Layout.Types.{
  layout, raw_layout, variants_layout, members_layout, circuit_layout, starknet_layout, padded,
  tag_bits, count,
}
use cairo_native.Types.Layout.Rounding.{
  WellFormed, Good, then-Good, extended-Good, repeated-Good, from_size_align-Good,
  get_integer_layout-WellFormed, pad_to_align-WellFormed, round_up-Rounded,
}
use cairo_native.Types.Defs.{
  StarknetTypeConcrete, CircuitTypeConcrete, CoreTypeConcrete, TypeList, nil, cons, class_hash,
  contract_address, storage_base_address, storage_address, system, secp256_point,
  sha256_state_handle, sha512_state_handle, add_mod, mul_mod, u96_guarantee, circuit_modulus,
  circuit_failure_guarantee, circuit_input_accumulator, circuit_data, circuit_outputs,
  u96_limbs_less_than_guarantee, uint8, uint16, uint32, uint64, uint128, uint128_mul_guarantee,
  sint8, sint16, sint32, sint64, sint128, felt252, bytes31, qm31, ec_point, ec_state, bitwise,
  ec_op, gas_builtin, builtin_costs, range_check, range_check96, pedersen, poseidon, coupon,
  segment_arena, gas_reserve, blake, bounded_int, bounded_int_guarantee, starknet, circuit, array,
  boxed, nullable, felt252_dict, felt252_dict_entry, squashed_felt252_dict, span, int_range,
  non_zero, uninitialized, snapshot, const_type, struct_type, enum_type,
}

unit_WellFormed : WellFormed unit_layout
unit_WellFormed = record { align_le = omega arith; fits = omega arith }

word_WellFormed : WellFormed word_layout
word_WellFormed = record { align_le = omega arith; fits = omega arith }

int : (w : ℕ) → w < 2 ^ 32 → WellFormed (get_integer_layout w)
int w h = get_integer_layout-WellFormed w h

pub padded-Good : (x : Result Layout) → Good x → Good (padded x)
padded-Good (ok l) h = pad_to_align-WellFormed l h
padded-Good (err e) h = tt

starknet-Good : (info : StarknetTypeConcrete) → Good (starknet_layout info)
starknet-Good class_hash = int 252 (omega arith)
starknet-Good contract_address = int 252 (omega arith)
starknet-Good storage_base_address = int 252 (omega arith)
starknet-Good storage_address = int 252 (omega arith)
starknet-Good system = word_WellFormed
starknet-Good secp256_point =
    then-Good _ _ (extended-Good _ _ (int 256 (omega arith)) (int 256 (omega arith)))
      (λ l h. extended-Good l _ h (int 1 (omega arith)))
starknet-Good sha256_state_handle = word_WellFormed
starknet-Good sha512_state_handle = word_WellFormed

circuit-Good : (info : CircuitTypeConcrete) → Good (circuit_layout info)
circuit-Good add_mod = int 64 (omega arith)
circuit-Good mul_mod = int 64 (omega arith)
circuit-Good circuit_modulus = int 384 (omega arith)
circuit-Good u96_guarantee = int 96 (omega arith)
circuit-Good (u96_limbs_less_than_guarantee n) = repeated-Good _ (2 * n) (int 96 (omega arith))
circuit-Good circuit_failure_guarantee = repeated-Good _ 8 (int 96 (omega arith))
circuit-Good circuit_data = word_WellFormed
circuit-Good circuit_outputs =
    then-Good _ _ (repeated-Good _ 4 (int 96 (omega arith)))
      (λ l h. extended-Good word_layout l word_WellFormed h)
circuit-Good circuit_input_accumulator = extended-Good _ _ (int 64 (omega arith)) word_WellFormed
circuit-Good _ = unit_WellFormed

pub tag-WellFormed : (n : ℕ) → WellFormed (get_integer_layout (tag_bits n))
tag-WellFormed zero = int 0 (omega arith)
tag-WellFormed (suc n) = int (bits n % 2 ^ 32) (omega arith)

abbrev AllGood : Result (Option Layout) → Type 0
AllGood (ok (some l)) = WellFormed l
AllGood (ok none) = Unit
AllGood (err e) = Unit

or_unit :
    (x : Result (Option Layout))
    → AllGood x
    → Good (x >>= (λ members. ok (elim members [ none ↦ unit_layout | some l ↦ l ])))
or_unit (ok (some l)) h = h
or_unit (ok none) h = unit_WellFormed
or_unit (err e) h = tt

then-AllGood :
    (x : Result Layout) (f : Layout → Result (Option Layout))
    → Good x
    → ((l : Layout) → WellFormed l → AllGood (f l))
    → AllGood (x >>= f)
then-AllGood (ok l) f g next = next l g
then-AllGood (err e) f g next = tt

mutual
  unfolding raw_layout

  pub raw-Good : (t : CoreTypeConcrete) → Good (raw_layout t)
  raw-Good (array t) =
      let word = int 32 (omega arith) in
      then-Good _ _ (extended-Good _ _ word_WellFormed word)
        (λ l h. then-Good _ _ (extended-Good l _ h word) (λ l' h'. extended-Good l' _ h' word))
  raw-Good bitwise = word_WellFormed
  raw-Good (boxed t) = word_WellFormed
  raw-Good ec_op = word_WellFormed
  raw-Good ec_point = repeated-Good _ 2 (int 252 (omega arith))
  raw-Good ec_state = repeated-Good _ 3 (int 252 (omega arith))
  raw-Good felt252 = int 252 (omega arith)
  raw-Good gas_builtin = int 64 (omega arith)
  raw-Good builtin_costs = word_WellFormed
  raw-Good uint8 = int 8 (omega arith)
  raw-Good uint16 = int 16 (omega arith)
  raw-Good uint32 = int 32 (omega arith)
  raw-Good uint64 = int 64 (omega arith)
  raw-Good uint128 = int 128 (omega arith)
  raw-Good uint128_mul_guarantee = unit_WellFormed
  raw-Good (non_zero t) = padded-Good (raw_layout t) (raw-Good t)
  raw-Good (nullable t) = word_WellFormed
  raw-Good range_check = word_WellFormed
  raw-Good (uninitialized t) = padded-Good (raw_layout t) (raw-Good t)
  raw-Good (enum_type ts) = let tag = tag-WellFormed (count ts) in variants-Good _ _ ts tag tag
  raw-Good (struct_type ts) = or_unit (members_layout none ts) (members-AllGood none ts tt)
  raw-Good (felt252_dict t) = word_WellFormed
  raw-Good (felt252_dict_entry t) = extended-Good _ _ word_WellFormed word_WellFormed
  raw-Good (squashed_felt252_dict t) = word_WellFormed
  raw-Good pedersen = word_WellFormed
  raw-Good poseidon = word_WellFormed
  raw-Good (span t) = tt
  raw-Good (starknet info) = starknet-Good info
  raw-Good segment_arena = word_WellFormed
  raw-Good (snapshot t) = padded-Good (raw_layout t) (raw-Good t)
  raw-Good sint8 = int 8 (omega arith)
  raw-Good sint16 = int 16 (omega arith)
  raw-Good sint32 = int 32 (omega arith)
  raw-Good sint64 = int 64 (omega arith)
  raw-Good sint128 = int 128 (omega arith)
  raw-Good bytes31 = int 248 (omega arith)
  raw-Good (bounded_int r) = int (repr_bit_width r % 2 ^ 32) (omega arith)
  raw-Good (bounded_int_guarantee r) = int (repr_bit_width r % 2 ^ 32) (omega arith)
  raw-Good qm31 = repeated-Good _ 4 (int 31 (omega arith))
  raw-Good gas_reserve = int 128 (omega arith)
  raw-Good (const_type t) = padded-Good (raw_layout t) (raw-Good t)
  raw-Good coupon = unit_WellFormed
  raw-Good range_check96 = int 64 (omega arith)
  raw-Good (circuit info) = circuit-Good info
  raw-Good (int_range t) =
      then-Good (padded (raw_layout t)) _ (padded-Good (raw_layout t) (raw-Good t))
        (λ l h. extended-Good l l h h)
  raw-Good blake = int 64 (omega arith)

  variants-Good :
      (tag acc : Layout) (ts : TypeList)
      → WellFormed tag
      → WellFormed acc
      → Good (variants_layout tag acc ts)
  variants-Good tag acc nil h k = k
  variants-Good tag acc (cons t ts) h k =
      then-Good (padded (raw_layout t)) _ (padded-Good (raw_layout t) (raw-Good t)) (λ payload g.
        then-Good _ _ (extended-Good tag payload h g) (λ l wf.
          then-Good _ _
            (from_size_align-Good _ _ (max acc.align l.align)
              (omega (arith, k.align_le, wf.align_le)))
            (λ wider wf'. variants-Good tag wider ts h wf')))

  members-AllGood :
      (acc : Option Layout) (ts : TypeList) → AllGood (ok acc) → AllGood (members_layout acc ts)
  members-AllGood acc nil h = h
  members-AllGood none (cons t ts) h =
      then-AllGood (padded (raw_layout t)) _ (padded-Good (raw_layout t) (raw-Good t))
        (λ first g. members-AllGood (some first) ts g)
  members-AllGood (some l) (cons t ts) h =
      then-AllGood (padded (raw_layout t)) _ (padded-Good (raw_layout t) (raw-Good t)) (λ next g.
        then-AllGood _ _ (extended-Good l next h g)
          (λ longer wf. members-AllGood (some longer) ts wf))

-- What a layout promises: it ends where the next one may start, its alignment is at most 16 bytes
-- and an `isize` holds its size.
pub record Aligned (l : Layout) : Type 0 where
  pub whole : l.size % 2 ^ l.align ≡ 0
  pub align_le : l.align ≤ 4
  pub fits : l.size + 2 ^ l.align ≤ 2 ^ 63

same_layout : {l l' : Layout} → ok l ≡ ok l' → l ≡ l'
same_layout e = cc

no_layout : {e : Error} {l : Layout} → err e ≢ ok l
no_layout h = cc

aligned : (x : Result Layout) {l : Layout} → Good x → padded x ≡ ok l → Aligned l
aligned (ok l) h e =
    let r = round_up-Rounded l.size l.align h.align_le h.fits in
    subst Aligned (same_layout e) (record { whole = r.whole; align_le = h.align_le; fits = r.fits })
aligned (err e) h k = absurd (no_layout k)

-- If a type has a layout, its size is a multiple of its alignment, the alignment is at most 16
-- bytes, and the size with the alignment is at most 2 ^ 63.
pub layout-Aligned : (t : CoreTypeConcrete) {l : Layout} → layout t ≡ ok l → Aligned l
unfolding layout
layout-Aligned t h = aligned (raw_layout t) (raw-Good t) h

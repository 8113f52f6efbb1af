-- ===== src/Types/Integer.antt =====
-- The integer-like types: their ranges and how a value is stored (`integer_range`,
-- `is_bounded_int`, `is_felt252` of src/types.rs, `is_signed_repr` of src/libfuncs.rs).
use cairo_native.Prelude.{ℕ, ◌-◌, ◌^◌, Bool, true, false, ◌&&◌, not}
use cairo_native.Prelude.Int.{pos, negsuc, ltb_ℤ}
use cairo_native.Error.{Result, ok, err, integer_like_type_expected, ◌>>=◌}
use cairo_native.Utils.RangeExt.{Range, repr_bit_width}
use cairo_native.Types.Defs.{
  CoreTypeConcrete, uint8, uint16, uint32, uint64, uint128, sint8, sint16, sint32, sint64, sint128,
  felt252, bytes31, bounded_int, non_zero, const_type,
}

-- The `felt252` prime modulo.
abbrev pub prime : ℕ
prime = 3618502788666131213697322783095070105623107215331596699973092056135872020481

-- `range_of::<T>` at an unsigned and at a signed type of `w` bits.
abbrev pub unsigned_range : ℕ → Range
unsigned_range w = record { lower = pos 0; upper = pos (2 ^ w) }

abbrev pub signed_range : ℕ → Range
signed_range w = record { lower = negsuc (2 ^ (w - 1) - 1); upper = pos (2 ^ (w - 1)) }

unfoldable pub integer_range : CoreTypeConcrete → Result Range
integer_range uint8 = ok (unsigned_range 8)
integer_range uint16 = ok (unsigned_range 16)
integer_range uint32 = ok (unsigned_range 32)
integer_range uint64 = ok (unsigned_range 64)
integer_range uint128 = ok (unsigned_range 128)
integer_range felt252 = ok (record { lower = pos 0; upper = pos prime })
integer_range sint8 = ok (signed_range 8)
integer_range sint16 = ok (signed_range 16)
integer_range sint32 = ok (signed_range 32)
integer_range sint64 = ok (signed_range 64)
integer_range sint128 = ok (signed_range 128)
integer_range (bounded_int r) = ok r
integer_range bytes31 = ok (unsigned_range 248)
integer_range (const_type t) = integer_range t
integer_range (non_zero t) = integer_range t
integer_range _ = err integer_like_type_expected

unfoldable pub is_bounded_int : CoreTypeConcrete → Bool
is_bounded_int (bounded_int r) = true
is_bounded_int (non_zero t) = is_bounded_int t
is_bounded_int _ = false

unfoldable pub is_felt252 : CoreTypeConcrete → Bool
is_felt252 felt252 = true
is_felt252 (non_zero t) = is_felt252 t
is_felt252 _ = false

unfoldable pub is_signed_repr : CoreTypeConcrete → Result Bool
is_signed_repr t = do r ← integer_range t; ok (ltb_ℤ r.lower (pos 0) && not (is_bounded_int t))

-- The width of the MLIR type that `TypeBuilder::build` gives to an integer type.
unfoldable pub integer_width : CoreTypeConcrete → Result ℕ
integer_width uint8 = ok 8
integer_width uint16 = ok 16
integer_width uint32 = ok 32
integer_width uint64 = ok 64
integer_width uint128 = ok 128
integer_width sint8 = ok 8
integer_width sint16 = ok 16
integer_width sint32 = ok 32
integer_width sint64 = ok 64
integer_width sint128 = ok 128
integer_width felt252 = ok 252
integer_width bytes31 = ok 248
integer_width (bounded_int r) = ok (repr_bit_width r)
integer_width (non_zero t) = integer_width t
integer_width _ = err integer_like_type_expected

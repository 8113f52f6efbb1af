-- ===== src/Emu/Numbers.antt =====
-- debug_utils/sierra-emu/src/utils.rs: from values to integers and back.
use cairo_native.Prelude.{ℕ, ◌-◌, ◌%◌, ◌^◌, Option, none, some, ◌&&◌, if◌then◌else◌}
use cairo_native.Prelude.Int.{ℤ, pos, negsuc, leb_ℤ, ltb_ℤ}
use cairo_native.Utils.RangeExt.{Range}
use cairo_native.Types.{
  CoreTypeConcrete, uint8, uint16, uint32, uint64, uint128, sint8, sint16, sint32, sint64, sint128,
  felt252, bytes31, non_zero, const_type,
}
use cairo_native.Types.Integer.{prime, unsigned_range, signed_range}
use cairo_native.Emu.Value.{Value}

-- One argument of `get_numeric_args_as_bigints`.
unfoldable pub numeric_arg : Value → Option ℤ
numeric_arg (Value.bounded_int r a) = some a
numeric_arg (Value.i8 a) = some a
numeric_arg (Value.i16 a) = some a
numeric_arg (Value.i32 a) = some a
numeric_arg (Value.i64 a) = some a
numeric_arg (Value.i128 a) = some a
numeric_arg (Value.u8 n) = some (pos n)
numeric_arg (Value.u16 n) = some (pos n)
numeric_arg (Value.u32 n) = some (pos n)
numeric_arg (Value.u64 n) = some (pos n)
numeric_arg (Value.u128 n) = some (pos n)
numeric_arg (Value.felt n) = some (pos n)
numeric_arg (Value.bytes31 n) = some (pos n)
numeric_arg _ = none

-- `to_u8` and its like, followed by `unwrap`.
abbrev pub to_unsigned : ℕ → (ℕ → Value) → ℤ → Option Value
to_unsigned w make (pos n) = if ltb_ℤ (pos n) (pos (2 ^ w)) then some (make n) else none
to_unsigned w make (negsuc n) = none

-- `to_i8` and its like, followed by `unwrap`.
abbrev pub to_signed : ℕ → (ℤ → Value) → ℤ → Option Value
to_signed w make a =
    if leb_ℤ (signed_range w).lower a && ltb_ℤ a (signed_range w).upper then some (make a) else none

-- `Felt::from`: the representative below the prime.
abbrev pub felt_of : ℤ → ℕ
felt_of (pos n) = n % prime
felt_of (negsuc n) = prime - 1 - n % prime

unfoldable pub get_value_from_integer : CoreTypeConcrete → ℤ → Option Value
get_value_from_integer (non_zero t) a = get_value_from_integer t a
get_value_from_integer sint8 a = to_signed 8 Value.i8 a
get_value_from_integer sint16 a = to_signed 16 Value.i16 a
get_value_from_integer sint32 a = to_signed 32 Value.i32 a
get_value_from_integer sint64 a = to_signed 64 Value.i64 a
get_value_from_integer sint128 a = to_signed 128 Value.i128 a
get_value_from_integer uint8 a = to_unsigned 8 Value.u8 a
get_value_from_integer uint16 a = to_unsigned 16 Value.u16 a
get_value_from_integer uint32 a = to_unsigned 32 Value.u32 a
get_value_from_integer uint64 a = to_unsigned 64 Value.u64 a
get_value_from_integer uint128 a = to_unsigned 128 Value.u128 a
get_value_from_integer (CoreTypeConcrete.bounded_int r) a = some (Value.bounded_int r a)
get_value_from_integer felt252 a = some (Value.felt (felt_of a))
get_value_from_integer _ a = none

unfoldable pub emu_integer_range : CoreTypeConcrete → Option Range
emu_integer_range uint8 = some (unsigned_range 8)
emu_integer_range uint16 = some (unsigned_range 16)
emu_integer_range uint32 = some (unsigned_range 32)
emu_integer_range uint64 = some (unsigned_range 64)
emu_integer_range uint128 = some (unsigned_range 128)
emu_integer_range felt252 = some (record { lower = pos 0; upper = pos prime })
emu_integer_range sint8 = some (signed_range 8)
emu_integer_range sint16 = some (signed_range 16)
emu_integer_range sint32 = some (signed_range 32)
emu_integer_range sint64 = some (signed_range 64)
emu_integer_range sint128 = some (signed_range 128)
emu_integer_range (CoreTypeConcrete.bounded_int r) = some r
emu_integer_range bytes31 = some (unsigned_range 248)
emu_integer_range (const_type t) = emu_integer_range t
emu_integer_range (non_zero t) = emu_integer_range t
emu_integer_range _ = none

-- ===== src/Libfuncs/Int/Operation.antt =====
-- src/libfuncs/int.rs: arithmetic, comparison and bit operations. A builder takes the types of
-- its signature, where it reads them, then the arguments.
use cairo_native.Prelude.{ℕ, ◌*◌, [], ◌∷◌, Bool, true, false, not, ◌&&◌, if◌then◌else◌, Option}
use cairo_native.Prelude.Int.{ℤ, pos, negsuc, ◌-ℤ◌, eqb_ℤ}
use cairo_native.Error.{Result, ok, ◌>>=◌}
use cairo_native.Mlir.{Mlir, eq, sge}
use cairo_native.Utils.RangeExt.{Range}
use cairo_native.Types.{CoreTypeConcrete}
use cairo_native.Types.Integer.{integer_range, integer_width}
use cairo_native.Sierra.{IntOperator, overflowing_add, overflowing_sub}
use cairo_native.Libfuncs.Counter.{
  Jump, increment_builtin_counter, increment_builtin_counter_by, bitwise_builtin_size,
}
use cairo_native.Libfuncs.BoundedInt.Arith.{
  DivRemAlgorithm, known_small_rhs, known_small_quotient, known_small_lhs, or_assert,
}

-- -2 ^ 127 and 2 ^ 127 - 1
abbrev pub is_i128 : Range → Bool
is_i128 range =
    eqb_ℤ range.lower (negsuc 170141183460469231731687303715884105727)
    && eqb_ℤ (range.upper -ℤ pos 1) (pos 170141183460469231731687303715884105727)

-- How far a division moves the range check counter.
abbrev pub divmod_range_checks : DivRemAlgorithm → ℕ
divmod_range_checks known_small_rhs = 3
divmod_range_checks known_small_quotient = 4
divmod_range_checks known_small_lhs = 4

module _ (m : Mlir) where
  -- The intrinsic by its name, `op_name`.
  abbrev pub overflow_op : Bool → IntOperator → ℕ → ℕ → ℕ → ℕ × Bool
  overflow_op false overflowing_add = m.uadd_with_overflow
  overflow_op false overflowing_sub = m.usub_with_overflow
  overflow_op true overflowing_add = m.sadd_with_overflow
  overflow_op true overflowing_sub = m.ssub_with_overflow

  unfoldable pub build_operation : CoreTypeConcrete → IntOperator → ℕ → ℕ → ℕ → Result Jump
  build_operation value_ty operator counter lhs rhs = do
    range_check ← increment_builtin_counter m counter
    value_range ← integer_range value_ty
    let is_signed = not (eqb_ℤ value_range.lower (pos 0))
    w ← integer_width value_ty
    let (result, overflow) = overflow_op is_signed operator w lhs rhs
    if is_signed
        then (do
          let is_not_i128 = not (is_i128 value_range)
          in_range_check ←
              if is_not_i128 then increment_builtin_counter_by m range_check 1 else ok range_check
          k0 ← m.const_int w (pos 0)
          let is_positive = m.cmpi sge w result k0
          ok (
              if overflow
              then (if is_positive
                  then (1, range_check ∷ result ∷ [])
                  else (2, range_check ∷ result ∷ []))
              else (0, in_range_check ∷ result ∷ [])))
        else ok
            (if overflow then (1, range_check ∷ result ∷ []) else (0, range_check ∷ result ∷ []))

  unfoldable pub build_diff : CoreTypeConcrete → ℕ → ℕ → ℕ → Result Jump
  build_diff value_ty counter lhs rhs = do
    range_check ← increment_builtin_counter m counter
    w ← integer_width value_ty
    let is_greater_equal = m.cmpi sge w lhs rhs
    let value_difference = m.subi w lhs rhs
    ok (
        if is_greater_equal
        then (0, range_check ∷ value_difference ∷ [])
        else (1, range_check ∷ value_difference ∷ []))

  unfoldable pub build_divmod :
      (Range → Range → Option DivRemAlgorithm)
      → (lhs rhs : CoreTypeConcrete) → ℕ
      → ℕ
      → ℕ
      → Result Jump
  build_divmod try_new lhs_ty rhs_ty counter lhs rhs = do
    lhs_range ← integer_range lhs_ty
    rhs_range ← integer_range rhs_ty
    algorithm ← or_assert (try_new lhs_range rhs_range)
    range_check ← increment_builtin_counter_by m counter (divmod_range_checks algorithm)
    w ← integer_width lhs_ty
    ok (0, range_check ∷ m.divui w lhs rhs ∷ m.remui w lhs rhs ∷ [])

  unfoldable pub build_equal : CoreTypeConcrete → ℕ → ℕ → Result Jump
  build_equal value_ty lhs rhs = do
    w ← integer_width value_ty
    ok (if m.cmpi eq w lhs rhs then (1, []) else (0, []))

  unfoldable pub build_const : CoreTypeConcrete → ℤ → Result Jump
  build_const value_ty constant = do
    w ← integer_width value_ty
    value ← m.const_int w constant
    ok (0, value ∷ [])

  unfoldable pub build_is_zero : CoreTypeConcrete → ℕ → Result Jump
  build_is_zero value_ty input = do
    w ← integer_width value_ty
    k0 ← m.const_int w (pos 0)
    ok (if m.cmpi eq w input k0 then (0, []) else (1, input ∷ []))

  unfoldable pub build_bitwise : CoreTypeConcrete → ℕ → ℕ → ℕ → Result Jump
  build_bitwise value_ty counter lhs rhs = do
    bitwise ← increment_builtin_counter_by m counter bitwise_builtin_size
    w ← integer_width value_ty
    ok (0, bitwise ∷ m.andi w lhs rhs ∷ m.xori w lhs rhs ∷ m.ori w lhs rhs ∷ [])

  unfoldable pub build_byte_reverse : ℕ → ℕ → Result Jump
  build_byte_reverse counter value = do
    bitwise ← increment_builtin_counter_by m counter (4 * bitwise_builtin_size)
    ok (0, bitwise ∷ m.bswap 128 value ∷ [])

  -- The guarantee is an undefined value of a type without size: it takes no pattern here.
  unfoldable pub build_guarantee_mul : ℕ → ℕ → Result Jump
  build_guarantee_mul lhs rhs = let (lo, hi) = m.mului_extended 128 lhs rhs in ok (0, hi ∷ lo ∷ [])

  unfoldable pub build_mul_guarantee_verify : ℕ → Result Jump
  build_mul_guarantee_verify counter = do
    range_check ← increment_builtin_counter_by m counter 9
    ok (0, range_check ∷ [])

  unfoldable pub build_square_root :
      (integer_square_root : ℕ → ℕ → Result ℕ) → CoreTypeConcrete → ℕ → ℕ → Result Jump
  build_square_root integer_square_root value_ty counter input = do
    range_check ← increment_builtin_counter_by m counter 4
    w ← integer_width value_ty
    value ← integer_square_root w input
    ok (0, range_check ∷ value ∷ [])

  -- From the operand type and the result type.
  unfoldable pub build_wide_mul : (src dst : CoreTypeConcrete) → ℕ → ℕ → Result Jump
  build_wide_mul src_ty result_ty lhs rhs = do
    v ← integer_width src_ty
    w ← integer_width result_ty
    src_range ← integer_range src_ty
    let ext = if eqb_ℤ src_range.lower (pos 0) then m.extui v w else m.extsi v w
    ok (0, m.muli w (ext lhs) (ext rhs) ∷ [])

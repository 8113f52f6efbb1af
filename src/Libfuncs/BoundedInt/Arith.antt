-- ===== src/Libfuncs/BoundedInt/Arith.antt =====
-- src/libfuncs/bounded_int.rs: addition, subtraction, multiplication and division. An operation
-- takes the operand types and the result types of its signature, then the arguments.
use cairo_native.Prelude.{ℕ, ◌+◌, ◌*◌, max, leb, Option, some, none, [], ◌∷◌}
use cairo_native.Prelude.Int.{ℤ, pos, ◌+ℤ◌, ◌-ℤ◌, neg_ℤ, nat_abs, min_ℤ, max_ℤ, eqb_ℤ}
use cairo_native.Error.{Result, ok, err, native_assert, ensure, ◌>>=◌, ◌>>◌}
use cairo_native.Num.Bits.{bits}
use cairo_native.Mlir.{Mlir}
use cairo_native.Utils.RangeExt.{Range, repr_bit_width, zero_based_bit_width}
use cairo_native.Types.{CoreTypeConcrete}
use cairo_native.Libfuncs.Counter.{Jump, increment_builtin_counter_by, range_check_builtin_size}
use cairo_native.Libfuncs.BoundedInt.Operand.{
  integer_operand, repr_bias, adjust, resize, widen_operand_to_compute,
}

-- The width in which a sum or a difference is computed.
unfoldable pub sum_width : Range → Range → ℤ → ℕ
sum_width lhs rhs adjustment =
    max (max (repr_bit_width lhs) (repr_bit_width rhs)) (bits (nat_abs adjustment)) + 1

-- The range in which a product is computed.
unfoldable pub product_range : Range → Range → Range → Range
product_range lhs rhs dst = record {
  lower = min_ℤ (min_ℤ (min_ℤ lhs.lower rhs.lower) dst.lower) (pos 0);
  upper = max_ℤ (max_ℤ lhs.upper rhs.upper) dst.upper;
}

-- The range in which a quotient is computed.
unfoldable pub quotient_range : Range → Range → Range
quotient_range lhs rhs = record { lower = pos 0; upper = max_ℤ lhs.upper rhs.upper }

-- `BoundedIntDivRemAlgorithm`, which Sierra chooses by the two ranges, without its payloads.
pub data DivRemAlgorithm : Type 0 where
  known_small_rhs known_small_quotient known_small_lhs : DivRemAlgorithm

-- How far a division moves the range check counter.
abbrev pub range_checks : DivRemAlgorithm → ℕ
range_checks known_small_rhs = 3 * range_check_builtin_size
range_checks known_small_quotient = 4 * range_check_builtin_size
range_checks known_small_lhs = 4 * range_check_builtin_size

-- `to_native_assert_error`
abbrev pub or_assert {ℓ} : {A : Type ℓ} → Option A → Result A
or_assert (some a) = ok a
or_assert none = err native_assert

module _ (m : Mlir) where
  unfoldable pub build_add : (lhs rhs dst : CoreTypeConcrete) → ℕ → ℕ → Result Jump
  unfolding sum_width
  build_add lhs_ty rhs_ty dst_ty lhs_value rhs_value = do
    lhs ← integer_operand lhs_ty
    rhs ← integer_operand rhs_ty
    dst ← integer_operand dst_ty
    let src_repr_bias = repr_bias lhs.ty lhs.range +ℤ repr_bias rhs.ty rhs.range
    let adjustment = repr_bias dst.ty dst.range -ℤ src_repr_bias
    let compute_width = sum_width lhs.range rhs.range adjustment
    let lhs_wide = widen_operand_to_compute m lhs compute_width lhs_value
    let rhs_wide = widen_operand_to_compute m rhs compute_width rhs_value
    res ← adjust m compute_width (m.addi compute_width lhs_wide rhs_wide) adjustment
    ok (0, resize m compute_width (repr_bit_width dst.range) res ∷ [])

  unfoldable pub build_sub : (lhs rhs dst : CoreTypeConcrete) → ℕ → ℕ → Result Jump
  unfolding sum_width
  build_sub lhs_ty rhs_ty dst_ty lhs_value rhs_value = do
    lhs ← integer_operand lhs_ty
    rhs ← integer_operand rhs_ty
    dst ← integer_operand dst_ty
    let src_repr_bias = repr_bias lhs.ty lhs.range -ℤ repr_bias rhs.ty rhs.range
    let adjustment = repr_bias dst.ty dst.range -ℤ src_repr_bias
    let compute_width = sum_width lhs.range rhs.range adjustment
    let lhs_wide = widen_operand_to_compute m lhs compute_width lhs_value
    let rhs_wide = widen_operand_to_compute m rhs compute_width rhs_value
    res ← adjust m compute_width (m.subi compute_width lhs_wide rhs_wide) adjustment
    ok (0, resize m compute_width (repr_bit_width dst.range) res ∷ [])

  unfoldable pub build_mul : (lhs rhs dst : CoreTypeConcrete) → ℕ → ℕ → Result Jump
  unfolding product_range
  build_mul lhs_ty rhs_ty dst_ty lhs_value rhs_value = do
    lhs ← integer_operand lhs_ty
    rhs ← integer_operand rhs_ty
    dst ← integer_operand dst_ty
    let compute_width = zero_based_bit_width (product_range lhs.range rhs.range dst.range)
    ensure (leb (repr_bit_width lhs.range) compute_width)
    ensure (leb (repr_bit_width rhs.range) compute_width)
    let lhs_wide = widen_operand_to_compute m lhs compute_width lhs_value
    let rhs_wide = widen_operand_to_compute m rhs compute_width rhs_value
    lhs_actual ← adjust m compute_width lhs_wide (neg_ℤ (repr_bias lhs.ty lhs.range))
    rhs_actual ← adjust m compute_width rhs_wide (neg_ℤ (repr_bias rhs.ty rhs.range))
    res ←
        adjust m compute_width (m.muli compute_width lhs_actual rhs_actual)
          (repr_bias dst.ty dst.range)
    ok (0, resize m compute_width (repr_bit_width dst.range) res ∷ [])

  -- Sierra's choice of the algorithm, `BoundedIntDivRemAlgorithm::try_new`, is an argument.
  unfoldable pub build_div_rem :
      (Range → Range → Option DivRemAlgorithm)
      → (lhs rhs div rem : CoreTypeConcrete) → ℕ
      → ℕ
      → ℕ
      → Result Jump
  unfolding quotient_range
  build_div_rem try_new lhs_ty rhs_ty div_ty rem_ty counter lhs_value rhs_value = do
    lhs ← integer_operand lhs_ty
    rhs ← integer_operand rhs_ty
    div ← integer_operand div_ty
    rem ← integer_operand rem_ty
    algorithm ← or_assert (try_new lhs.range rhs.range)
    let compute_width = zero_based_bit_width (quotient_range lhs.range rhs.range)
    ensure (leb (repr_bit_width lhs.range) compute_width)
    ensure (leb (repr_bit_width rhs.range) compute_width)
    let lhs_wide = widen_operand_to_compute m lhs compute_width lhs_value
    let rhs_wide = widen_operand_to_compute m rhs compute_width rhs_value
    lhs_actual ← adjust m compute_width lhs_wide (neg_ℤ (repr_bias lhs.ty lhs.range))
    rhs_actual ← adjust m compute_width rhs_wide (neg_ℤ (repr_bias rhs.ty rhs.range))
    div_value ←
        adjust m compute_width (m.divui compute_width lhs_actual rhs_actual)
          (repr_bias div.ty div.range)
    let div_value' = resize m compute_width (repr_bit_width div.range) div_value
    ensure (eqb_ℤ rem.range.lower (pos 0))
    rem_value ←
        adjust m compute_width (m.remui compute_width lhs_actual rhs_actual)
          (repr_bias rem.ty rem.range)
    let rem_value' = resize m compute_width (repr_bit_width rem.range) rem_value
    range_check ← increment_builtin_counter_by m counter (range_checks algorithm)
    ok (0, range_check ∷ div_value' ∷ rem_value' ∷ [])

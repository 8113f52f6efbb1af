-- ===== src/Libfuncs/BoundedInt/Operand.antt =====
-- src/libfuncs/bounded_int.rs: operands, and the conversions between representations.
use cairo_native.Prelude.{ℕ, zero, suc, ◌||◌, if◌then◌else◌, ltb, ◌==◌}
use cairo_native.Prelude.Int.{ℤ, pos, negsuc, leb_ℤ}
use cairo_native.Error.{Result, ok, ◌>>=◌}
use cairo_native.Mlir.{Mlir}
use cairo_native.Utils.RangeExt.{Range, repr_bit_width}
use cairo_native.Types.{CoreTypeConcrete}
use cairo_native.Types.Integer.{integer_range, is_bounded_int}

-- Sierra integer operand: concrete type and range of its values.
pub record IntegerOperand : Type 0 where
  pub ty : CoreTypeConcrete
  pub range : Range

-- `IntegerOperand::new`
unfoldable pub integer_operand : CoreTypeConcrete → Result IntegerOperand
integer_operand ty = do range ← integer_range ty; ok (record { ty = ty; range = range })

-- What the bit pattern 0 stands for.
unfoldable pub repr_bias : CoreTypeConcrete → Range → ℤ
repr_bias ty range = if is_bounded_int ty then range.lower else pos 0

module _ (m : Mlir) where
  -- Subtracts the adjustment, by a constant that is never negative.
  unfoldable pub adjust : ℕ → ℕ → ℤ → Result ℕ
  adjust w value (pos zero) = ok value
  adjust w value (pos (suc n)) = do
    const_val ← m.const_int w (pos (suc n))
    ok (m.subi w value const_val)
  adjust w value (negsuc n) = do
    const_val ← m.const_int w (pos (suc n))
    ok (m.addi w value const_val)

  unfoldable pub resize : ℕ → ℕ → ℕ → ℕ
  resize src_width dst_width value =
      if src_width == dst_width
      then value
      else if ltb dst_width src_width
      then m.trunci src_width dst_width value
      else m.extui src_width dst_width value

  -- The stored width of an operand is that of its range.
  unfoldable pub widen_operand_to_compute : IntegerOperand → ℕ → ℕ → ℕ
  widen_operand_to_compute operand compute_width value =
      if leb_ℤ (pos 0) operand.range.lower || is_bounded_int operand.ty
      then m.extui (repr_bit_width operand.range) compute_width value
      else m.extsi (repr_bit_width operand.range) compute_width value

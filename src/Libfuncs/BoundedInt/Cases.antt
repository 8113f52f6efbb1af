-- ===== src/Libfuncs/BoundedInt/Cases.antt =====
-- src/libfuncs/bounded_int.rs: the operations that branch on a value, and the guarantees.
use cairo_native.Prelude.{ℕ, ◌*◌, [], ◌∷◌, ◌&&◌, ◌||◌, if◌then◌else◌}
use cairo_native.Prelude.Int.{ℤ, pos, ◌-ℤ◌, neg_ℤ, leb_ℤ, ltb_ℤ}
use cairo_native.Error.{Result, ok, ensure, ◌>>=◌, ◌>>◌}
use cairo_native.Mlir.{Mlir, slt, ult, eq}
use cairo_native.Utils.RangeExt.{repr_bit_width}
use cairo_native.Types.{CoreTypeConcrete}
use cairo_native.Types.Integer.{integer_range, is_signed_repr}
use cairo_native.Libfuncs.Counter.{
  Jump, increment_builtin_counter, increment_builtin_counter_by, range_check_builtin_size,
}
use cairo_native.Libfuncs.BoundedInt.Operand.{
  IntegerOperand, integer_operand, repr_bias, adjust, resize,
}

module _ (m : Mlir) where
  -- The closure `adjust_to_output` of `build_constrain`, without its jump.
  unfoldable pub adjust_to_output : IntegerOperand → ℤ → ℕ → IntegerOperand → Result ℕ
  adjust_to_output src src_repr_bias src_value out = do
    let out_repr_bias = repr_bias out.ty out.range
    let src_width = repr_bit_width src.range
    res ← adjust m src_width src_value (out_repr_bias -ℤ src_repr_bias)
    ok (resize m src_width (repr_bit_width out.range) res)

  unfoldable pub build_constrain : (src lower upper : CoreTypeConcrete) → ℤ → ℕ → ℕ → Result Jump
  unfolding adjust_to_output
  build_constrain src_ty lower_ty upper_ty boundary counter src_value = do
    range_check ← increment_builtin_counter m counter
    src ← integer_operand src_ty
    lower ← integer_operand lower_ty
    upper ← integer_operand upper_ty
    let src_width = repr_bit_width src.range
    let src_repr_bias = repr_bias src.ty src.range
    limit ← m.const_int src_width (boundary -ℤ src_repr_bias)
    is_signed ← is_signed_repr src.ty
    let is_lower = m.cmpi (if is_signed then slt else ult) src_width src_value limit
    lower_value ← adjust_to_output src src_repr_bias src_value lower
    upper_value ← adjust_to_output src src_repr_bias src_value upper
    ok (
        if is_lower
        then (0, range_check ∷ lower_value ∷ [])
        else (1, range_check ∷ upper_value ∷ []))

  unfoldable pub build_trim : (src dst : CoreTypeConcrete) → ℤ → ℕ → Result Jump
  build_trim src_ty dst_ty trimmed value = do
    src ← integer_operand src_ty
    dst ← integer_operand dst_ty
    let src_width = repr_bit_width src.range
    let src_repr_bias = repr_bias src.ty src.range
    trimmed_value ← m.const_int src_width (trimmed -ℤ src_repr_bias)
    let is_invalid = m.cmpi eq src_width value trimmed_value
    let dst_repr_bias = repr_bias dst.ty dst.range
    res ← adjust m src_width value (dst_repr_bias -ℤ src_repr_bias)
    let res' = resize m src_width (repr_bit_width dst.range) res
    ok (if is_invalid then (0, []) else (1, res' ∷ []))

  unfoldable pub build_is_zero : CoreTypeConcrete → ℕ → Result Jump
  build_is_zero src_ty src_value = do
    src ← integer_operand src_ty
    ensure (leb_ℤ src.range.lower (pos 0) && ltb_ℤ (pos 0) src.range.upper)
    let src_repr_bias = repr_bias src.ty src.range
    k0 ← m.const_int (repr_bit_width src.range) (neg_ℤ src_repr_bias)
    let src_is_zero = m.cmpi eq (repr_bit_width src.range) src_value k0
    ok (if src_is_zero then (0, []) else (1, src_value ∷ []))

  unfoldable pub build_guarantee_verify : ℕ → Result Jump
  build_guarantee_verify counter = do
    range_check ← increment_builtin_counter_by m counter (2 * range_check_builtin_size)
    ok (0, range_check ∷ [])

  unfoldable pub build_u128_to_u32_guarantees : ℕ → Result Jump
  build_u128_to_u32_guarantees value = do
    k32 ← m.const_int 128 (pos 32)
    k64 ← m.const_int 128 (pos 64)
    k96 ← m.const_int 128 (pos 96)
    let w0 = m.trunci 128 32 value
    let w1 = m.trunci 128 32 (m.shrui 128 value k32)
    let w2 = m.trunci 128 32 (m.shrui 128 value k64)
    let w3 = m.trunci 128 32 (m.shrui 128 value k96)
    ok (0, w0 ∷ w1 ∷ w2 ∷ w3 ∷ [])

-- The value is handed on as it is, after a check of its type.
unfoldable pub build_wrap_non_zero : CoreTypeConcrete → ℕ → Result Jump
build_wrap_non_zero src_ty value = do
  src_range ← integer_range src_ty
  ensure (ltb_ℤ (pos 0) src_range.lower || leb_ℤ src_range.upper (pos 0))
  ok (0, value ∷ [])

-- ===== src/Refine/IntExamples.antt =====
-- The interpreter and the code at concrete arguments of plain integer types.
use cairo_native.Prelude.{◌≡◌, refl, [], ◌∷◌, some, arith}
use cairo_native.Prelude.Int.{pos, negsuc, ◌-ℤ◌, int_laws}
use cairo_native.Num.Bits.{bits}
use cairo_native.Num.Wrap.{wrap}
use cairo_native.Mlir.Wrapping.{wrapping, wrapping-IsMlir}
use cairo_native.Utils.RangeExt.{repr_bit_width}
use cairo_native.Types.{sint8, uint8, range_check}
use cairo_native.Types.Integer.{integer_range, is_bounded_int, unsigned_range}
use cairo_native.Libfuncs.BoundedInt.Operand.{repr_bias}
use cairo_native.Sierra.{overflowing_add, overflowing_sub}
use cairo_native.Refine.Sint.Operation.{
  branch_of, jump_of, sint_operation-Agree, sint_operation-above,
}
use cairo_native.Libfuncs.Int.Operation.{build_operation}
use cairo_native.Emu.Int.{eval_operation}
use cairo_native.Refine.Int.{operation-Agree}
use cairo_native.Emu.Value.{Value, unit}
use cairo_native.Emu.Numbers.{numeric_arg}
use cairo_native.Refine.Encodes.{Encodes, Agree, integer}

byte : Encodes uint8 (Value.u8 250) 250
unfolding integer_range numeric_arg repr_bias is_bounded_int wrap repr_bit_width bits ◌-ℤ◌
byte = integer (unsigned_range 8) (pos 250) tt refl refl (omega arith) refl

operation-Agree_example :
    Agree
      (λ i. range_check ∷ uint8 ∷ [])
      (eval_operation uint8 overflowing_add (unit ∷ Value.u8 250 ∷ Value.u8 250 ∷ []))
      (build_operation wrapping uint8 overflowing_add 3 250 250)
operation-Agree_example =
    operation-Agree wrapping-IsMlir uint8 tt overflowing_add 3 (omega arith) byte byte

sint_operation-Agree_example :
    Agree
      (λ i. range_check ∷ sint8 ∷ [])
      (eval_operation sint8 overflowing_sub (unit ∷ Value.i8 (negsuc 99) ∷ Value.i8 (pos 100) ∷ []))
      (build_operation wrapping sint8 overflowing_sub 3 (wrap 8 (negsuc 99)) (wrap 8 (pos 100)))
unfolding numeric_arg
sint_operation-Agree_example =
    sint_operation-Agree wrapping-IsMlir sint8 tt overflowing_sub 3 (omega arith)
      (Value.i8 (negsuc 99)) (Value.i8 (pos 100)) (negsuc 99) (pos 100) refl refl (omega arith)
      (omega arith) (omega int_laws)

sint_operation-above_example :
    (branch_of
        (eval_operation sint8 overflowing_add (unit ∷ Value.i8 (pos 100) ∷ Value.i8 (pos 100) ∷ []))
      ≡ some 1)
    × (jump_of
          (build_operation wrapping sint8 overflowing_add 3 (wrap 8 (pos 100)) (wrap 8 (pos 100)))
        ≡ some 2)
unfolding numeric_arg
sint_operation-above_example =
    sint_operation-above wrapping-IsMlir sint8 tt overflowing_add 3 (omega arith)
      (Value.i8 (pos 100)) (Value.i8 (pos 100)) (pos 100) (pos 100) refl refl (omega arith)
      (omega arith) (omega int_laws)

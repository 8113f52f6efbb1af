-- ===== src/Refine/CastExamples.antt =====
-- The casts at concrete arguments: an `i8` to an `i16`, to a range around zero, and back.
use cairo_native.Prelude.{refl, [], ◌∷◌, arith, ◌==◌, if◌then◌else◌, false}
use cairo_native.Prelude.Int.{pos, negsuc, ◌-ℤ◌}
use cairo_native.Num.Bits.{bits}
use cairo_native.Num.Wrap.{wrap}
use cairo_native.Mlir.Wrapping.{wrapping, wrapping-IsMlir}
use cairo_native.Utils.RangeExt.{Range, repr_bit_width}
use cairo_native.Types.{sint8, sint16, bounded_int, range_check}
use cairo_native.Types.Integer.{integer_range, is_bounded_int, signed_range}
use cairo_native.Libfuncs.BoundedInt.Operand.{repr_bias}
use cairo_native.Libfuncs.Cast.Build.{build_downcast, build_upcast}
use cairo_native.Emu.Value.{Value, unit}
use cairo_native.Emu.Numbers.{numeric_arg}
use cairo_native.Emu.Cast.{eval_downcast, eval_upcast}
use cairo_native.Refine.Encodes.{Encodes, Agree, integer}
use cairo_native.Refine.Cast.{upcast-Agree, downcast-Agree}

-- BoundedInt<-3, 5>
abbrev narrow : Range
narrow = record { lower = negsuc 2; upper = pos 6 }

negative : Encodes sint8 (Value.i8 (negsuc 99)) 156
unfolding integer_range numeric_arg repr_bias is_bounded_int wrap repr_bit_width bits ◌-ℤ◌
negative = integer (signed_range 8) (negsuc 99) tt refl refl (omega arith) refl

upcast-Agree_example :
    Agree
      (λ i. sint16 ∷ [])
      (eval_upcast sint16 (Value.i8 (negsuc 99) ∷ []))
      (build_upcast wrapping false sint8 sint16 156)
unfolding integer_range
upcast-Agree_example = upcast-Agree wrapping-IsMlir sint8 sint16 tt refl refl negative (omega arith)

downcast-Agree_example :
    Agree
      (λ i. if i == 0 then range_check ∷ bounded_int narrow ∷ [] else range_check ∷ [])
      (eval_downcast narrow (bounded_int narrow) (unit ∷ Value.i8 (negsuc 99) ∷ []))
      (build_downcast wrapping false false narrow sint8 (bounded_int narrow) 17 156)
unfolding integer_range
downcast-Agree_example =
    downcast-Agree wrapping-IsMlir sint8 (bounded_int narrow) (omega arith) refl refl negative
      (omega arith) (omega arith) false 17 (omega arith)

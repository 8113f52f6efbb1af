-- ===== src/Libfuncs/Int/Examples.antt =====
-- The builders at concrete operands.
use cairo_native.Prelude.{◌≡◌, refl, [], ◌∷◌, arith}
use cairo_native.Prelude.Int.{pos, negsuc, ◌+ℤ◌, ◌-ℤ◌}
use cairo_native.Error.{ok, ◌>>=◌}
use cairo_native.Num.Wrap.{wrap}
use cairo_native.Mlir.Wrapping.{wrapping, wrapping-IsMlir}
use cairo_native.Types.{sint8, sint16}
use cairo_native.Types.Integer.{integer_range, integer_width}
use cairo_native.Utils.RangeExt.{size}
use cairo_native.Libfuncs.Int.Felt.{build_from_felt252, build_to_felt252}
use cairo_native.Libfuncs.Int.Operation.{build_wide_mul}
use cairo_native.Prelude.Int.{◌*ℤ◌}
use cairo_native.Libfuncs.Int.WideMul.{build_wide_mul-signed}
use cairo_native.Libfuncs.Int.Felts.{first_of, felt252-round_trip}
use cairo_native.Sierra.{overflowing_add}
use cairo_native.Sierra.{overflowing_add}
use cairo_native.Libfuncs.Int.Operation.{build_operation, build_diff}
use cairo_native.Libfuncs.Int.Overflow.{build_operation-signed, build_diff-signed}

-- 100 + 100 is above the range of an `i8`, with the word of -56.
build_operation-signed_example :
    build_operation wrapping sint8 overflowing_add 6 (wrap 8 (pos 100)) (wrap 8 (pos 100))
    ≡ ok (2, 7 ∷ 200 ∷ [])
unfolding integer_range integer_width wrap ◌+ℤ◌ ◌-ℤ◌
build_operation-signed_example =
    build_operation-signed wrapping-IsMlir sint8 7 refl refl (pos 100) (pos 100) (omega arith)
      (omega arith) 6 (omega arith) overflowing_add

build_diff-signed_example :
    build_diff wrapping sint8 6 (wrap 8 (negsuc 1)) (wrap 8 (pos 10)) ≡ ok (1, 7 ∷ 244 ∷ [])
unfolding integer_range integer_width wrap ◌+ℤ◌ ◌-ℤ◌
build_diff-signed_example =
    build_diff-signed wrapping-IsMlir sint8 7 refl refl (negsuc 1) (pos 10) (omega arith)
      (omega arith) 6 (omega arith)

felt252-round_trip_example :
    (build_to_felt252 wrapping sint8 (wrap 8 (negsuc 99)) >>= λ (branch, values).
    build_from_felt252 wrapping sint8 6 (first_of values))
    ≡ ok (0, 8 ∷ 156 ∷ [])
unfolding integer_range integer_width wrap size ◌-ℤ◌
felt252-round_trip_example =
    felt252-round_trip wrapping-IsMlir sint8 7 (omega arith) refl refl (negsuc 99) 6 (omega arith)
      (omega arith)

build_wide_mul-signed_example :
    build_wide_mul wrapping sint8 sint16 (wrap 8 (negsuc 99)) (wrap 8 (pos 100))
    ≡ ok (0, wrap 16 (negsuc 9999) ∷ [])
unfolding integer_range integer_width ◌*ℤ◌
build_wide_mul-signed_example =
    build_wide_mul-signed wrapping-IsMlir sint8 sint16 7 16 refl refl refl (omega arith) (negsuc 99)
      (pos 100) (omega arith) (omega arith)

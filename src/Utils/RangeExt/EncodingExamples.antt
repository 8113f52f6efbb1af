-- ===== src/Utils/RangeExt/EncodingExamples.antt =====
-- BoundedInt<-3, 5> holds -2, which a felt shows as the prime minus two.
use cairo_native.Prelude.{inr, refl, ◌≡◌, some, arith}
use cairo_native.Prelude.Int.{pos, negsuc, ◌+ℤ◌, ◌-ℤ◌}
use mathlib.Core.Option.{map}
use cairo_native.Utils.RangeExt.{Range, size}
use cairo_native.Types.Integer.{prime}
use cairo_native.Utils.RangeExt.Encoding.{
  repr_encode, repr_decode, of_le_bytes, repr_encode-repr_decode,
}

abbrev small : Range
small = record { lower = negsuc 2; upper = pos 6 }

repr_encode-repr_decode_example :
    map (λ bytes. repr_decode small (of_le_bytes bytes)) (repr_encode small (negsuc 1 +ℤ pos prime))
    ≡ some (negsuc 1)
unfolding size ◌-ℤ◌
repr_encode-repr_decode_example =
    repr_encode-repr_decode small (negsuc 1) (omega arith) (omega arith) (negsuc 1 +ℤ pos prime)
      (inr refl)

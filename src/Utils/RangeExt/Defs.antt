-- ===== src/Utils/RangeExt/Defs.antt =====
-- Sierra's half-open ranges of integers, and `RangeExt`.
use cairo_native.Prelude.{ℕ, zero, suc, ◌+◌, ◌-◌, max}
use cairo_native.Prelude.Int.{ℤ, pos, negsuc, ◌-ℤ◌, nat_abs}
use cairo_native.Num.Bits.{bits}

-- The integers from `lower` up to, and not with, `upper`.
pub record Range : Type 0 where
  pub lower : ℤ
  pub upper : ℤ

unfoldable pub size : Range → ℤ
size r = r.upper -ℤ r.lower

-- The width of a bound of a signed range: `upper` stands for the greatest value, `upper - 1`.
unfoldable pub signed_upper_width : ℤ → ℕ
signed_upper_width (pos zero) = 0
signed_upper_width (pos (suc n)) = bits (suc n) + 1
signed_upper_width (negsuc n) = bits (suc n - 1) + 1

unfoldable pub zero_based_width : ℤ → ℤ → ℕ
unfolding signed_upper_width
zero_based_width (negsuc n) upper = max (bits (suc n - 1) + 1) (signed_upper_width (upper -ℤ pos 1))
zero_based_width (pos n) upper = bits (nat_abs (upper -ℤ pos 1))

unfoldable pub zero_based_bit_width : Range → ℕ
unfolding zero_based_width
zero_based_bit_width r = max (zero_based_width r.lower r.upper) 1

unfoldable pub repr_bit_width : Range → ℕ
unfolding size
repr_bit_width r = max (bits (nat_abs (size r -ℤ pos 1))) 1

-- ===== src/Utils/RangeExt/Laws.antt =====
-- Every value of a range fits the widths that `RangeExt` gives.
use cairo_native.Prelude.{ℕ, zero, suc, ◌-◌, ◌^◌, ◌≤◌, ◌<◌, ◌≡◌, max, arith}
use cairo_native.Prelude.Int.{ℤ, pos, negsuc, ◌-ℤ◌, ◌≤ℤ◌, ◌<ℤ◌, nat_abs, int_laws, one_part}
use cairo_native.Num.Bits.{bits, lt-two_pow-bits, bits-le, two_pow_mono, two_pow_suc, two_pow_pos}
use cairo_native.Utils.RangeExt.Defs.{
  Range, size, repr_bit_width, zero_based_bit_width, zero_based_width, signed_upper_width,
}

-- A value of the range.
abbrev pub InRange : ℤ → Range → Type 0
InRange a r = (r.lower ≤ℤ a) × (a <ℤ r.upper)

pub repr_bit_width-pos : (r : Range) → 0 < repr_bit_width r
unfolding repr_bit_width
repr_bit_width-pos r = omega arith

-- The size of a range that is not empty fits the width of its stored values.
pub size-le : (r : Range) → r.lower <ℤ r.upper → r.upper -ℤ r.lower ≤ℤ pos (2 ^ repr_bit_width r)
unfolding repr_bit_width size
size-le r h =
    let n : ℕ = nat_abs (r.upper -ℤ r.lower -ℤ pos 1) in
    omega (
      int_laws,
      one_part (r.upper -ℤ r.lower -ℤ pos 1),
      lt-two_pow-bits n,
      two_pow_mono (bits n) (max (bits n) 1) (omega arith),
    )

-- The distance of a value from the lower bound fits that width.
pub offset-lt : (r : Range) (a : ℤ) → InRange a r → a -ℤ r.lower <ℤ pos (2 ^ repr_bit_width r)
offset-lt r a h = omega (int_laws, size-le r (omega int_laws))

-- No smaller width than that of the stored values is needed.
pub repr_bit_width-le :
    (r : Range) (w : ℕ)
    → 0 < w
    → r.lower <ℤ r.upper
    → r.upper -ℤ r.lower ≤ℤ pos (2 ^ w)
    → repr_bit_width r ≤ w
unfolding repr_bit_width size
repr_bit_width-le r w p h k =
    let n : ℕ = nat_abs (r.upper -ℤ r.lower -ℤ pos 1) in
    omega (
      int_laws,
      bits-le n w (omega (int_laws, one_part (r.upper -ℤ r.lower -ℤ pos 1), two_pow_pos w)),
    )

pub signed_upper_width-lt : (u : ℤ) (w : ℕ) → signed_upper_width u ≤ suc w → u <ℤ pos (2 ^ w)
unfolding signed_upper_width
signed_upper_width-lt (pos zero) w h = omega (arith, two_pow_pos w)
signed_upper_width-lt (pos (suc n)) w h =
    omega (arith, lt-two_pow-bits (suc n), two_pow_mono (bits (suc n)) w (omega arith))
signed_upper_width-lt (negsuc n) w h = omega arith

-- The bounds of a range lie in the words of the width in which it is computed with.
zero_based_width-bounds :
    (lower upper : ℤ) (w : ℕ)
    → lower <ℤ upper
    → zero_based_width lower upper ≤ suc w
    → (upper -ℤ lower ≤ℤ pos (2 ^ suc w)) × (nat_abs lower < 2 ^ suc w) × (upper ≤ℤ pos (2 ^ suc w))
unfolding zero_based_width
zero_based_width-bounds (pos n) upper w h k =
    let below = lt-two_pow-bits (nat_abs (upper -ℤ pos 1)) in
    let grow = two_pow_mono (bits (nat_abs (upper -ℤ pos 1))) (suc w) k in
    (
      omega (int_laws, below, grow, one_part (upper -ℤ pos 1)),
      omega (int_laws, below, grow, one_part (upper -ℤ pos 1)),
      omega (int_laws, below, grow, one_part (upper -ℤ pos 1)),
    )
zero_based_width-bounds (negsuc n) upper w h k =
    let below = signed_upper_width-lt (upper -ℤ pos 1) w (omega arith) in
    let above = lt-two_pow-bits (suc n - 1) in
    let grow = two_pow_mono (bits (suc n - 1)) w (omega arith) in
    (
      omega (int_laws, below, above, grow, two_pow_suc w),
      omega (int_laws, below, above, grow, two_pow_suc w, two_pow_pos w),
      omega (int_laws, below, above, grow, two_pow_suc w),
    )

module _ (r : Range) (h : r.lower <ℤ r.upper) where
  pub zero_based_bit_width-pos : 0 < zero_based_bit_width r
  unfolding zero_based_bit_width
  zero_based_bit_width-pos = omega arith

  pub zero_based_bit_width-bounds :
      (r.upper -ℤ r.lower ≤ℤ pos (2 ^ zero_based_bit_width r))
      × (nat_abs r.lower < 2 ^ zero_based_bit_width r)
      × (r.upper ≤ℤ pos (2 ^ zero_based_bit_width r))
  unfolding zero_based_bit_width
  zero_based_bit_width-bounds =
      let w : ℕ = zero_based_bit_width r - 1 in
      let e : zero_based_bit_width r ≡ suc w = omega arith in
      rw e (zero_based_width-bounds r.lower r.upper w h (omega arith))

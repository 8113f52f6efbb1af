-- ===== src/Libfuncs/Cast/Widths.antt =====
-- The words in which a cast computes hold the integers of both ranges, in two's complement if the
-- source range has negative ones.
use cairo_native.Prelude.{
  ℕ, suc, ◌-◌, ◌^◌, ◌≡◌, ◌≤◌, ◌∙◌, sym, refl, Bool, true, false, leb, arith, if◌then◌else◌,
}
use cairo_native.Prelude.Int.{ℤ, pos, negsuc, ◌-ℤ◌, ◌≤ℤ◌, ◌<ℤ◌, ltb_ℤ, leb_ℤ, pos_part, int_laws}
use cairo_native.Error.{ok}
use mathlib.Core.Bool.{false≢true}
use cairo_native.Num.Bits.{bits, lt-two_pow-bits, two_pow_mono, two_pow_pos}
use cairo_native.Num.Wrap.{wrap, wrap-lt}
use cairo_native.Mlir.{Mlir, IsMlir, sge, uge}
use cairo_native.Mlir.Laws.{signed-wrap}
use cairo_native.Utils.RangeExt.{Range, repr_bit_width, zero_based_bit_width, zero_based_width}
use cairo_native.Utils.RangeExt.Laws.{InRange, zero_based_bit_width-bounds, signed_upper_width-lt}
use cairo_native.Libfuncs.BoundedInt.Products.{Within-Fits}
use cairo_native.Libfuncs.BoundedInt.Compare.{
  Placed, unsigned_word, signed_word, nat_word, const_int-wrap,
}

-- A width that holds the stored values and the integers of a range that is not empty.
pub record Holds (r : Range) (w : ℕ) : Type 0 where
  pub not_empty : r.lower <ℤ r.upper
  pub width_le : zero_based_bit_width r ≤ w

pub repr_bit_width-le_zero_based :
    (r : Range) → r.lower <ℤ r.upper → repr_bit_width r ≤ zero_based_bit_width r
repr_bit_width-le_zero_based r h = (Within-Fits r r (omega arith, omega arith) h).width_le

-- A range with negative integers lies in the signed words.
signed_bounds_of :
    (lower upper : ℤ) (v : ℕ)
    → lower <ℤ pos 0
    → zero_based_width lower upper ≤ suc v
    → (negsuc (2 ^ v - 1) ≤ℤ lower) × (upper ≤ℤ pos (2 ^ v))
unfolding zero_based_width
signed_bounds_of (pos n) upper v neg h = absurd (omega (arith, neg))
signed_bounds_of (negsuc n) upper v neg h =
    let top = signed_upper_width-lt (upper -ℤ pos 1) v (omega arith) in
    let low = lt-two_pow-bits (suc n - 1) in
    let grow = two_pow_mono (bits (suc n - 1)) v (omega arith) in
    (omega (arith, low, grow, two_pow_pos v), omega (int_laws, top))

pub signed_bounds :
    (r : Range) (w : ℕ)
    → r.lower <ℤ pos 0
    → Holds r w
    → (negsuc (2 ^ (w - 1) - 1) ≤ℤ r.lower) × (r.upper ≤ℤ pos (2 ^ (w - 1))) × (w ≡ suc (w - 1))
unfolding zero_based_bit_width
signed_bounds r w neg h =
    let (low, high) = signed_bounds_of r.lower r.upper (w - 1) neg (omega (arith, h.width_le)) in
    (low, high, omega (arith, h.width_le))

pub unsigned_bounds : (r : Range) (w : ℕ) → Holds r w → r.upper ≤ℤ pos (2 ^ w)
unsigned_bounds r w h =
    let (_, _, high) = zero_based_bit_width-bounds r h.not_empty in
    omega (arith, high, two_pow_mono (zero_based_bit_width r) w h.width_le)

neg_test : (a : ℤ) → a <ℤ pos 0 → ltb_ℤ a (pos 0) ≡ true
neg_test a h = ground arith

pos_test : (a : ℤ) → pos 0 ≤ℤ a → ltb_ℤ a (pos 0) ≡ false
pos_test a h = ground arith

-- An integer of the range is placed in the words of the range.
pub InRange-Placed :
    (r : Range) (w : ℕ) (c : ℤ) → Holds r w → InRange c r → Placed (ltb_ℤ r.lower (pos 0)) w c
InRange-Placed r w c h c_in = go r.lower refl
  where
    go : (low : ℤ) → r.lower ≡ low → Placed (ltb_ℤ r.lower (pos 0)) w c
    go (pos n) e =
        let nonneg : pos 0 ≤ℤ r.lower = rw e (omega arith) in
        unsigned_word (pos_test r.lower nonneg) (omega (arith, c_in, nonneg))
          (omega (arith, c_in, unsigned_bounds r w h))
    go (negsuc n) e =
        let neg : r.lower <ℤ pos 0 = rw e (omega arith) in
        let (low, high, width) = signed_bounds r w neg h in
        signed_word (w - 1) (neg_test r.lower neg) width (omega (arith, c_in, low))
          (omega (arith, c_in, high))

leb_parts : (y z : ℤ) → pos 0 ≤ℤ y → pos 0 ≤ℤ z → leb (pos_part y) (pos_part z) ≡ leb_ℤ y z
leb_parts (pos a) (pos b) h k = ground arith
leb_parts (negsuc a) z h k = absurd (omega arith)
leb_parts (pos a) (negsuc b) h k = absurd (omega arith)

module _ {m : Mlir} (laws : IsMlir m) where
  -- The lower bound is a constant of the width.
  pub const_int-lower :
      (r : Range) (w : ℕ) → Holds r w → m.const_int w r.lower ≡ ok (wrap w r.lower)
  const_int-lower r w h =
      const_int-wrap laws w r.lower (InRange-Placed r w r.lower h (omega arith, h.not_empty))

  pub cmpi-ge :
      {s : Bool} (w : ℕ) (y z : ℤ)
      → Placed s w y
      → Placed s w z
      → m.cmpi (if s then sge else uge) w (wrap w y) (wrap w z) ≡ leb_ℤ z y
  cmpi-ge w y z (unsigned_word u lo hi) (unsigned_word _ lo' hi') = rw u (
      laws.cmpi_lem uge w _ _ (wrap-lt w y) (wrap-lt w z)
      ∙ rw (nat_word w y lo hi, nat_word w z lo' hi') (leb_parts z y lo' lo))
  cmpi-ge w y z (signed_word v u e lo hi) (signed_word v' _ e' lo' hi') =
      let same : v' ≡ v = omega arith in
      rw u (
        laws.cmpi_lem sge w _ _ (wrap-lt w y) (wrap-lt w z)
        ∙ rw (e, signed-wrap v y lo hi, signed-wrap v z (rw same at lo') (rw same at hi')))
  cmpi-ge w y z (unsigned_word u _ _) (signed_word v u' _ _ _) = absurd (false≢true (sym u ∙ u'))
  cmpi-ge w y z (signed_word v u _ _ _) (unsigned_word u' _ _) = absurd (false≢true (sym u' ∙ u))

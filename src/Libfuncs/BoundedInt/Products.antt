-- ===== src/Libfuncs/BoundedInt/Products.antt =====
-- Multiplication and division of stored integers give the stored product, quotient and rest.
use cairo_native.Prelude.{ℕ, ◌^◌, ◌≤◌, ◌<◌, ◌≡◌, [], ◌∷◌, ap, ◌∙◌, arith, le→leb}
use cairo_native.Prelude.Int.{
  ℤ, pos, ◌-ℤ◌, ◌*ℤ◌, ◌≤ℤ◌, ◌<ℤ◌, neg_ℤ, nat_abs, int_laws, one_part, min_ℤ, max_ℤ,
}
use cairo_native.Error.{ok}
use cairo_native.Num.Wrap.{wrap}
use cairo_native.Mlir.{Mlir, IsMlir}
use cairo_native.Mlir.Laws.{muli-wrap}
use cairo_native.Utils.RangeExt.{Range, repr_bit_width, zero_based_bit_width}
use cairo_native.Utils.RangeExt.Laws.{
  InRange, repr_bit_width-le, zero_based_bit_width-pos, zero_based_bit_width-bounds,
}
use cairo_native.Types.{CoreTypeConcrete, bounded_int}
use cairo_native.Types.Integer.{integer_range}
use cairo_native.Libfuncs.BoundedInt.Operand.{repr_bias, adjust}
use cairo_native.Libfuncs.BoundedInt.Arith.{product_range, build_mul}
use cairo_native.Libfuncs.BoundedInt.Stored.{
  IsInteger, stored, typed-Shape, integer_operand-ok, integer_range-bounded_int,
  repr_bias-bounded_int,
}
use cairo_native.Libfuncs.BoundedInt.Convert.{adjust-wrap, widen-stored}
use cairo_native.Libfuncs.BoundedInt.Sums.{finish}

-- One range inside another.
abbrev pub Within : Range → Range → Type 0
Within l r = (r.lower ≤ℤ l.lower) × (l.upper ≤ℤ r.upper)

min_ℤ-bounds : (a b : ℤ) → (min_ℤ a b ≤ℤ a) × (min_ℤ a b ≤ℤ b)
min_ℤ-bounds a b = ground arith

pub max_ℤ-bounds : (a b : ℤ) → (a ≤ℤ max_ℤ a b) × (b ≤ℤ max_ℤ a b)
max_ℤ-bounds a b = ground arith

product_range-Within :
    (l r d : Range)
    → Within l (product_range l r d)
      × Within r (product_range l r d)
      × Within d (product_range l r d)
      × ((product_range l r d).lower ≤ℤ pos 0)
unfolding product_range
product_range-Within l r d =
    let inner = min_ℤ-bounds l.lower r.lower in
    let middle = min_ℤ-bounds (min_ℤ l.lower r.lower) d.lower in
    let outer = min_ℤ-bounds (min_ℤ (min_ℤ l.lower r.lower) d.lower) (pos 0) in
    let low = max_ℤ-bounds l.upper r.upper in
    let high = max_ℤ-bounds (max_ℤ l.upper r.upper) d.upper in omega arith

-- The bias of a representation is zero or the lower bound.
repr_bias-within :
    (t : CoreTypeConcrete) (r : Range) (w : ℕ)
    → nat_abs r.lower < 2 ^ w
    → nat_abs (repr_bias t r) < 2 ^ w
unfolding repr_bias
repr_bias-within t r w h = ground arith

-- What a computation in `w` bits needs of a range.
pub record Fits (l : Range) (w : ℕ) : Type 0 where
  pub width_le : repr_bit_width l ≤ w
  pub span_le : l.upper -ℤ l.lower ≤ℤ pos (2 ^ w)
  pub low_lt : nat_abs l.lower < 2 ^ w

pub Within-Fits : (l c : Range) → Within l c → l.lower <ℤ l.upper → Fits l (zero_based_bit_width c)
Within-Fits l c (low, high) full =
    let some_value : c.lower <ℤ c.upper = omega int_laws in
    let (span, below, above) = zero_based_bit_width-bounds c some_value in
    let w = zero_based_bit_width c in
    record {
      width_le =
          repr_bit_width-le l w (zero_based_bit_width-pos c some_value) full (omega int_laws);
      span_le = omega int_laws;
      low_lt = omega (int_laws, one_part l.lower);
    }

module _ {m : Mlir} (laws : IsMlir m) (t : CoreTypeConcrete) (r : Range) (w : ℕ) (a : ℤ) where
  -- A widened operand, with its bias added, is the pattern of its value.
  pub restore :
      Fits r w → adjust m w (wrap w (a -ℤ repr_bias t r)) (neg_ℤ (repr_bias t r)) ≡ ok (wrap w a)
  restore fits =
      adjust-wrap laws w (a -ℤ repr_bias t r) (neg_ℤ (repr_bias t r))
        (omega (int_laws, repr_bias-within t r w fits.low_lt, one_part (neg_ℤ (repr_bias t r))))
      ∙ ap (λ z. ok (wrap w z)) (omega int_laws)

module _ {m : Mlir} (laws : IsMlir m) (lhs rhs : CoreTypeConcrete) {l r : Range} (d : Range)
    (a b : ℤ) (lhs_int : IsInteger lhs) (rhs_int : IsInteger rhs) (l_eq : integer_range lhs ≡ ok l)
    (r_eq : integer_range rhs ≡ ok r) (a_in : InRange a l) (b_in : InRange b r) where
  -- For two integer types and a value in the range of each, and any `BoundedInt` that holds
  -- their product, the code for `bounded_int_mul` passes its assertions and jumps to branch 0
  -- with the stored form of the product.
  pub build_mul-stored :
      InRange (a *ℤ b) d
      → build_mul m lhs rhs (bounded_int d) (stored lhs l a) (stored rhs r b)
        ≡ ok (0, stored (bounded_int d) d (a *ℤ b) ∷ [])
  unfolding build_mul
  build_mul-stored in_d =
      let c = product_range l r d in
      let w = zero_based_bit_width c in
      let (l_in, r_in, d_in, _) = product_range-Within l r d in
      let l_fits = Within-Fits l c l_in (omega int_laws) in
      let r_fits = Within-Fits r c r_in (omega int_laws) in
      let d_fits = Within-Fits d c d_in (omega int_laws) in
      rw
        (
          integer_operand-ok lhs l_eq,
          integer_operand-ok rhs r_eq,
          integer_operand-ok (bounded_int d) (integer_range-bounded_int d),
          le→leb _ _ l_fits.width_le,
          le→leb _ _ r_fits.width_le,
          repr_bias-bounded_int d,
          widen-stored laws lhs l w a (typed-Shape lhs lhs_int l_eq) a_in l_fits.width_le,
          widen-stored laws rhs r w b (typed-Shape rhs rhs_int r_eq) b_in r_fits.width_le,
          restore laws lhs l w a l_fits,
          restore laws rhs r w b r_fits,
          muli-wrap laws w a b,
          adjust-wrap laws w (a *ℤ b) d.lower d_fits.low_lt,
        )
        (ap (λ t. ok (0, t ∷ []))
          (finish laws w (a *ℤ b) d in_d (omega (int_laws, d_fits.span_le))))

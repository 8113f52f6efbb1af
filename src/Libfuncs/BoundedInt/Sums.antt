-- ===== src/Libfuncs/BoundedInt/Sums.antt =====
-- Addition and subtraction of stored integers give the stored sum and difference.
use cairo_native.Prelude.{ℕ, ◌+◌, ◌*◌, ◌^◌, ◌≤◌, ◌<◌, ◌≡◌, sym, [], ◌∷◌, ap, ◌∙◌, max, arith}
use cairo_native.Prelude.Int.{ℤ, pos, ◌+ℤ◌, ◌-ℤ◌, ◌<ℤ◌, nat_abs, int_laws, one_part, pos_part}
use cairo_native.Error.{ok}
use cairo_native.Num.Bits.{bits, lt-two_pow-bits, two_pow_pos, two_pow_suc, two_pow_mono}
use cairo_native.Num.Wrap.{wrap}
use native.Mathlib.Numerals.{add-one}
use cairo_native.Mlir.{Mlir, IsMlir}
use cairo_native.Mlir.Laws.{addi-wrap, subi-wrap}
use cairo_native.Utils.RangeExt.{Range, repr_bit_width}
use cairo_native.Utils.RangeExt.Laws.{InRange, offset-lt, size-le}
use cairo_native.Types.{CoreTypeConcrete, bounded_int}
use cairo_native.Types.Integer.{integer_range}
use cairo_native.Libfuncs.BoundedInt.Operand.{repr_bias, resize}
use cairo_native.Libfuncs.BoundedInt.Arith.{sum_width, build_add, build_sub}
use cairo_native.Libfuncs.BoundedInt.Stored.{
  IsInteger, stored, typed-Shape, integer_operand-ok, integer_range-bounded_int,
  repr_bias-bounded_int,
}
use cairo_native.Libfuncs.BoundedInt.Convert.{
  adjust-wrap, resize-nat, widen-stored, wrap_eq_nat, eq_pos_part,
}

-- The result ranges that Sierra gives to an addition and to a subtraction.
abbrev pub sum_range : Range → Range → Range
sum_range l r = record { lower = l.lower +ℤ r.lower; upper = l.upper +ℤ r.upper -ℤ pos 1 }

abbrev pub difference_range : Range → Range → Range
difference_range l r = record { lower = l.lower -ℤ (r.upper -ℤ pos 1); upper = l.upper -ℤ r.lower }

-- From the pattern of a result in the computation's width to its stored form.
pub finish :
    {m : Mlir} (laws : IsMlir m) (w : ℕ) (c : ℤ) (d : Range)
    → InRange c d
    → c -ℤ d.lower <ℤ pos (2 ^ w)
    → resize m w (repr_bit_width d) (wrap w (c -ℤ d.lower)) ≡ wrap (repr_bit_width d) (c -ℤ d.lower)
finish laws w c d h fits =
    let z = c -ℤ d.lower in
    let n = pos_part z in
    let e : z ≡ pos n = eq_pos_part z (omega int_laws) in
    let small : n < 2 ^ repr_bit_width d = omega (int_laws, offset-lt d c h, one_part z) in
    ap (resize _ w (repr_bit_width d)) (wrap_eq_nat w n z e (omega (int_laws, one_part z)))
    ∙ resize-nat laws w (repr_bit_width d) n (omega (int_laws, one_part z)) small
    ∙ sym (wrap_eq_nat (repr_bit_width d) n z e small)

-- The width of a sum holds both operands, the adjustment and the result.
sum_width-bounds :
    (l r : Range) (k : ℤ)
    → (repr_bit_width l ≤ sum_width l r k)
      × (repr_bit_width r ≤ sum_width l r k)
      × (nat_abs k < 2 ^ sum_width l r k)
      × (2 ^ repr_bit_width l + 2 ^ repr_bit_width r ≤ 2 ^ sum_width l r k)
unfolding sum_width
sum_width-bounds l r k =
    let top = max (max (repr_bit_width l) (repr_bit_width r)) (bits (nat_abs k)) in
    let double : 2 ^ (top + 1) ≡ 2 * 2 ^ top = rw add-one (two_pow_suc top) in
    (
      omega arith,
      omega arith,
      omega (
        arith,
        double,
        lt-two_pow-bits (nat_abs k),
        two_pow_mono (bits (nat_abs k)) top (omega arith),
        two_pow_pos top,
      ),
      omega (
        arith,
        double,
        two_pow_mono (repr_bit_width l) top (omega arith),
        two_pow_mono (repr_bit_width r) top (omega arith),
      ),
    )

module _ {m : Mlir} (laws : IsMlir m) (lhs rhs : CoreTypeConcrete) {l r : Range} (a b : ℤ)
    (lhs_int : IsInteger lhs) (rhs_int : IsInteger rhs) (l_eq : integer_range lhs ≡ ok l)
    (r_eq : integer_range rhs ≡ ok r) (a_in : InRange a l) (b_in : InRange b r) where
  -- For two integer types and a value in the range of each, the code for `bounded_int_add`
  -- jumps to branch 0 with the stored form of the sum of the values, in the `BoundedInt` whose
  -- range is the sum of the ranges.
  pub build_add-stored :
      build_add m lhs rhs (bounded_int (sum_range l r)) (stored lhs l a) (stored rhs r b)
      ≡ ok (0, stored (bounded_int (sum_range l r)) (sum_range l r) (a +ℤ b) ∷ [])
  unfolding build_add
  build_add-stored =
      let d : Range = sum_range l r in
      let x = repr_bias lhs l in
      let y = repr_bias rhs r in
      let k = d.lower -ℤ (x +ℤ y) in
      let w = sum_width l r k in
      let (l_le, r_le, k_lt, wide) = sum_width-bounds l r k in
      rw
        (
          integer_operand-ok lhs l_eq,
          integer_operand-ok rhs r_eq,
          integer_operand-ok (bounded_int d) (integer_range-bounded_int d),
          repr_bias-bounded_int d,
          widen-stored laws lhs l w a (typed-Shape lhs lhs_int l_eq) a_in l_le,
          widen-stored laws rhs r w b (typed-Shape rhs rhs_int r_eq) b_in r_le,
          addi-wrap laws w (a -ℤ x) (b -ℤ y),
          adjust-wrap laws w (a -ℤ x +ℤ (b -ℤ y)) k k_lt,
        )
        (ap (λ t. ok (0, t ∷ []))
          (ap (λ t. resize m w (repr_bit_width d) (wrap w t)) (omega int_laws)
            ∙ finish laws w (a +ℤ b) d (omega int_laws, omega int_laws)
                (omega (int_laws, offset-lt l a a_in, offset-lt r b b_in))))

  -- For two integer types and a value in the range of each, the code for `bounded_int_sub`
  -- jumps to branch 0 with the stored form of the difference of the values, in the `BoundedInt`
  -- whose range is the difference of the ranges.
  pub build_sub-stored :
      build_sub m lhs rhs (bounded_int (difference_range l r)) (stored lhs l a) (stored rhs r b)
      ≡ ok (0, stored (bounded_int (difference_range l r)) (difference_range l r) (a -ℤ b) ∷ [])
  unfolding build_sub
  build_sub-stored =
      let d : Range = difference_range l r in
      let x = repr_bias lhs l in
      let y = repr_bias rhs r in
      let k = d.lower -ℤ (x -ℤ y) in
      let w = sum_width l r k in
      let (l_le, r_le, k_lt, wide) = sum_width-bounds l r k in
      rw
        (
          integer_operand-ok lhs l_eq,
          integer_operand-ok rhs r_eq,
          integer_operand-ok (bounded_int d) (integer_range-bounded_int d),
          repr_bias-bounded_int d,
          widen-stored laws lhs l w a (typed-Shape lhs lhs_int l_eq) a_in l_le,
          widen-stored laws rhs r w b (typed-Shape rhs rhs_int r_eq) b_in r_le,
          subi-wrap laws w (a -ℤ x) (b -ℤ y),
          adjust-wrap laws w (a -ℤ x -ℤ (b -ℤ y)) k k_lt,
        )
        (ap (λ t. ok (0, t ∷ []))
          (ap (λ t. resize m w (repr_bit_width d) (wrap w t)) (omega int_laws)
            ∙ finish laws w (a -ℤ b) d (omega int_laws, omega int_laws)
                (omega (int_laws, offset-lt l a a_in, size-le r (omega int_laws)))))

-- ===== src/Libfuncs/BoundedInt/Branches.antt =====
-- The operations that branch take the branch that the integer asks for, and hand the integer on in
-- the representation of that branch.
use cairo_native.Prelude.{
  ℕ, ◌+◌, ◌%◌, ◌^◌, ◌<◌, ◌≡◌, ap, ◌∙◌, arith, true, false, [], ◌∷◌, if◌then◌else◌, Bool-cases, inl,
  inr, ◌≢◌,
}
use cairo_native.Prelude.Int.{
  ℤ, pos, ◌-ℤ◌, ◌≤ℤ◌, ◌<ℤ◌, neg_ℤ, nat_abs, int_laws, one_part, -ℤ_parts, ltb_ℤ, eqb_ℤ, leb_ℤ,
}
use cairo_native.Error.{ok}
use cairo_native.Num.Bits.{two_pow_pos, two_pow_suc}
use cairo_native.Num.Wrap.{wrap}
use cairo_native.Mlir.{Mlir, IsMlir}
use cairo_native.Utils.RangeExt.{Range, repr_bit_width}
use cairo_native.Utils.RangeExt.Laws.{InRange, offset-lt}
use cairo_native.Types.{CoreTypeConcrete, bounded_int}
use cairo_native.Types.Integer.{integer_range, is_bounded_int}
use cairo_native.Libfuncs.Counter.{increment_builtin_counter, increment_builtin_counter_by_lem}
use cairo_native.Libfuncs.BoundedInt.Operand.{repr_bias, adjust, resize}
use cairo_native.Libfuncs.BoundedInt.Cases.{build_constrain, build_trim, build_is_zero}
use cairo_native.Libfuncs.BoundedInt.Stored.{
  IsInteger, Shape, biased, natural, twos, stored, typed-Shape, integer_operand-ok,
  integer_range-bounded_int, repr_bias-bounded_int,
}
use cairo_native.Libfuncs.BoundedInt.Convert.{adjust-wrap, bounds}
use cairo_native.Libfuncs.BoundedInt.Sums.{finish}
use cairo_native.Libfuncs.BoundedInt.Products.{Within}
use cairo_native.Libfuncs.BoundedInt.Compare.{
  placed, is_signed_repr-ok, const_int-wrap, cmpi-wrap, cmpi-eq,
}

-- A distance between a value of a range and the bias of its representation fits the stored width.
distance-lt :
    (t : CoreTypeConcrete) (r : Range) (c : ℤ)
    → Shape (is_bounded_int t) r
    → InRange c r
    → nat_abs (c -ℤ repr_bias t r) < 2 ^ repr_bit_width r
unfolding repr_bias
distance-lt t r c (biased b ne) h =
    rw b (omega (int_laws, offset-lt r c h, one_part (c -ℤ r.lower)))
distance-lt t r c (natural v b e lo hi) h =
    let (below, above) = bounds c h lo hi in rw (e, b) (omega (int_laws, one_part (c -ℤ pos 0)))
distance-lt t r c (twos v b e lo hi) h =
    let (below, above) = bounds c h lo hi in
    rw (e, b) (omega (int_laws, one_part (c -ℤ pos 0), two_pow_suc v, two_pow_pos v))

module _ {m : Mlir} (laws : IsMlir m) (t : CoreTypeConcrete) (r : Range) (a : ℤ)
    (s : Shape (is_bounded_int t) r) (a_in : InRange a r) (d : Range) (d_in : Within d r)
    (full : d.lower <ℤ d.upper) where
  -- A stored value, moved to the bias of a range inside its own.
  pub adjust-stored :
      adjust m (repr_bit_width r) (stored t r a) (d.lower -ℤ repr_bias t r)
      ≡ ok (wrap (repr_bit_width r) (a -ℤ d.lower))
  adjust-stored =
      adjust-wrap laws (repr_bit_width r) (a -ℤ repr_bias t r) (d.lower -ℤ repr_bias t r)
        (distance-lt t r d.lower s (omega arith))
      ∙ ap (λ z. ok (wrap (repr_bit_width r) z)) (omega int_laws)

  -- If the value lies in that range, this is how it is stored there.
  pub resize-stored :
      InRange a d
      → resize m (repr_bit_width r) (repr_bit_width d) (wrap (repr_bit_width r) (a -ℤ d.lower))
        ≡ wrap (repr_bit_width d) (a -ℤ d.lower)
  resize-stored h = finish laws (repr_bit_width r) a d h (omega (int_laws, offset-lt r a a_in))

ltb_shift : (a b c : ℤ) → ltb_ℤ (a -ℤ c) (b -ℤ c) ≡ ltb_ℤ a b
ltb_shift a b c = ground (arith, -ℤ_parts a c, -ℤ_parts b c)

eqb_shift : (a b c : ℤ) → eqb_ℤ (a -ℤ c) (b -ℤ c) ≡ eqb_ℤ a b
eqb_shift a b c = ground (arith, -ℤ_parts a c, -ℤ_parts b c)

pub ltb_ℤ→lt : (a b : ℤ) → ltb_ℤ a b ≡ true → a <ℤ b
ltb_ℤ→lt a b h = ground arith

pub ltb_ℤ→ge : (a b : ℤ) → ltb_ℤ a b ≡ false → b ≤ℤ a
ltb_ℤ→ge a b h = ground arith

pub lt→ltb_ℤ : (a b : ℤ) → a <ℤ b → ltb_ℤ a b ≡ true
lt→ltb_ℤ a b h = ground arith

pub le→leb_ℤ : (a b : ℤ) → a ≤ℤ b → leb_ℤ a b ≡ true
le→leb_ℤ a b h = ground arith

pub ne_of_eqb : (a b : ℤ) → eqb_ℤ a b ≡ false → a ≢ b
ne_of_eqb a b h e = ground arith

zero-sub : (a : ℤ) → pos 0 -ℤ a ≡ neg_ℤ a
zero-sub a = omega int_laws

-- The ranges of the two branches of a comparison with a boundary.
abbrev pub below : Range → ℤ → Range
below r k = record { lower = r.lower; upper = k }

abbrev pub above : Range → ℤ → Range
above r k = record { lower = k; upper = r.upper }

module _ {m : Mlir} (laws : IsMlir m) (src : CoreTypeConcrete) {r : Range} (a : ℤ)
    (src_int : IsInteger src) (r_eq : integer_range src ≡ ok r) (a_in : InRange a r) where
  -- For a value of an integer type and a boundary strictly inside its range, the code for
  -- `bounded_int_constrain` jumps to branch 0 if the value is below the boundary and to branch
  -- 1 if not, with the counter moved on by one modulo 2 ^ 64 and the value as it is stored in
  -- the range of that branch.
  pub build_constrain-stored :
      (k : ℤ) (counter : ℕ)
      → counter < 2 ^ 64
      → r.lower <ℤ k
      → k <ℤ r.upper
      → build_constrain m src
          (bounded_int (below r k))
          (bounded_int (above r k))
          k
          counter
          (stored src r a)
        ≡ ok (
            if ltb_ℤ a k
            then (0, (counter + 1) % 2 ^ 64 ∷ stored (bounded_int (below r k)) (below r k) a ∷ [])
            else (1, (counter + 1) % 2 ^ 64 ∷ stored (bounded_int (above r k)) (above r k) a ∷ []))
  unfolding build_constrain increment_builtin_counter
  build_constrain-stored k counter counter_lt low high =
      let s = typed-Shape src src_int r_eq in
      let w = repr_bit_width r in
      rw
        (
          increment_builtin_counter_by_lem laws counter 1 counter_lt (omega arith),
          integer_operand-ok src r_eq,
          integer_operand-ok (bounded_int (below r k)) (integer_range-bounded_int (below r k)),
          integer_operand-ok (bounded_int (above r k)) (integer_range-bounded_int (above r k)),
          const_int-wrap laws w (k -ℤ repr_bias src r)
              (placed src r k s (omega arith, omega arith)),
          is_signed_repr-ok src r_eq,
          repr_bias-bounded_int (below r k),
          repr_bias-bounded_int (above r k),
          adjust-stored laws src r a s a_in (below r k) (omega arith) low,
          adjust-stored laws src r a s a_in (above r k) (omega arith) high,
          cmpi-wrap laws w (a -ℤ repr_bias src r) (k -ℤ repr_bias src r) (placed src r a s a_in)
              (placed src r k s (omega arith, omega arith)),
          ltb_shift a k (repr_bias src r),
        )
        (elim (Bool-cases (ltb_ℤ a k)) [
          | inl less ↦ rw (
            less,
            resize-stored laws src r a s a_in (below r k) (omega arith) low
                (a_in.0, ltb_ℤ→lt a k less),
          )
          | inr more ↦ rw (
            more,
            resize-stored laws src r a s a_in (above r k) (omega arith) high
                (ltb_ℤ→ge a k more, a_in.1),
          )
        ])

  -- For a value of an integer type, a trimmed value of its range, and a `BoundedInt` inside the
  -- range that is not empty and holds every other value, the code for `bounded_int_trim` jumps
  -- to branch 0 with nothing if the value is the trimmed one, and otherwise to branch 1 with
  -- the value as it is stored in the `BoundedInt`.
  pub build_trim-stored :
      (k : ℤ) (d : Range)
      → InRange k r
      → Within d r
      → (a ≢ k → InRange a d)
      → d.lower <ℤ d.upper
      → build_trim m src (bounded_int d) k (stored src r a)
        ≡ ok (if eqb_ℤ a k then (0, []) else (1, stored (bounded_int d) d a ∷ []))
  unfolding build_trim
  build_trim-stored k d k_in d_in rest full =
      let s = typed-Shape src src_int r_eq in
      let w = repr_bit_width r in
      rw
        (
          integer_operand-ok src r_eq,
          integer_operand-ok (bounded_int d) (integer_range-bounded_int d),
          const_int-wrap laws w (k -ℤ repr_bias src r) (placed src r k s k_in),
          repr_bias-bounded_int d,
          adjust-stored laws src r a s a_in d d_in full,
          cmpi-eq laws w (a -ℤ repr_bias src r) (k -ℤ repr_bias src r) (placed src r a s a_in)
              (placed src r k s k_in),
          eqb_shift a k (repr_bias src r),
        )
        (elim (Bool-cases (eqb_ℤ a k)) [
          | inl same ↦ rw same
          | inr other ↦
              rw (other, resize-stored laws src r a s a_in d d_in full (rest (ne_of_eqb a k other)))
        ])

  -- For a value of an integer type whose range holds zero, the code for `bounded_int_is_zero`
  -- passes its assertion and jumps to branch 0 with nothing if the value is zero, and otherwise
  -- to branch 1 with the value as it is stored.
  pub build_is_zero-stored :
      InRange (pos 0) r
      → build_is_zero m src (stored src r a)
        ≡ ok (if eqb_ℤ a (pos 0) then (0, []) else (1, stored src r a ∷ []))
  unfolding build_is_zero
  build_is_zero-stored zero_in =
      let s = typed-Shape src src_int r_eq in
      let w = repr_bit_width r in
      let zero_placed = placed src r (pos 0) s zero_in in
      rw (
        integer_operand-ok src r_eq,
        le→leb_ℤ r.lower (pos 0) zero_in.0,
        lt→ltb_ℤ (pos 0) r.upper zero_in.1,
        ← zero-sub (repr_bias src r),
        const_int-wrap laws w (pos 0 -ℤ repr_bias src r) zero_placed,
        cmpi-eq laws w (a -ℤ repr_bias src r) (pos 0 -ℤ repr_bias src r) (placed src r a s a_in)
            zero_placed,
        eqb_shift a (pos 0) (repr_bias src r),
      )

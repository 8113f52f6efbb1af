-- ===== src/Libfuncs/Cast/Upcast.antt =====
-- An upcast keeps the integer and changes its representation.
use cairo_native.Prelude.{
  ℕ, suc, ◌≡◌, ◌≤◌, ◌∙◌, ap, refl, max, Bool, true, false, ltb, arith, if◌then◌else◌, ◌&&◌, ◌||◌,
  not, [], ◌∷◌, Bool-cases, inl, inr,
}
use cairo_native.Prelude.Int.{ℤ, pos, ◌-ℤ◌, ltb_ℤ, leb_ℤ, int_laws}
use cairo_native.Error.{ok}
use cairo_native.Num.Bits.{two_pow_pos}
use cairo_native.Num.Wrap.{wrap}
use cairo_native.Mlir.{Mlir, IsMlir}
use cairo_native.Mlir.Laws.{addi-wrap}
use cairo_native.Utils.RangeExt.{Range, repr_bit_width}
use cairo_native.Utils.RangeExt.Laws.{InRange, repr_bit_width-le, repr_bit_width-pos, size-le}
use cairo_native.Types.{CoreTypeConcrete, non_zero, bounded_int}
use cairo_native.Types.{
  uint8, uint16, uint32, uint64, uint128, sint8, sint16, sint32, sint64, sint128,
}
use cairo_native.Types.Integer.{integer_range, is_bounded_int, is_felt252}
use cairo_native.Libfuncs.BoundedInt.Operand.{repr_bias, widen_operand_to_compute}
use cairo_native.Libfuncs.BoundedInt.Stored.{
  IsInteger, Shape, biased, natural, twos, stored, typed-Shape,
}
use cairo_native.Libfuncs.BoundedInt.Convert.{widen-stored}
use cairo_native.Libfuncs.BoundedInt.Products.{Within}
use cairo_native.Libfuncs.BoundedInt.Branches.{le→leb_ℤ}
use cairo_native.Libfuncs.BoundedInt.Compare.{placed, const_int-wrap}
use cairo_native.Libfuncs.Int.Overflow.{leb_of_ltb}
use cairo_native.Libfuncs.Cast.Build.{build_upcast, upcast_offset, includes}

pub is_felt252-IsInteger : (t : CoreTypeConcrete) → IsInteger t → is_felt252 t ≡ false
unfolding is_felt252
is_felt252-IsInteger uint8 h = refl
is_felt252-IsInteger uint16 h = refl
is_felt252-IsInteger uint32 h = refl
is_felt252-IsInteger uint64 h = refl
is_felt252-IsInteger uint128 h = refl
is_felt252-IsInteger sint8 h = refl
is_felt252-IsInteger sint16 h = refl
is_felt252-IsInteger sint32 h = refl
is_felt252-IsInteger sint64 h = refl
is_felt252-IsInteger sint128 h = refl
is_felt252-IsInteger (bounded_int r) h = refl
is_felt252-IsInteger (non_zero t) h = is_felt252-IsInteger t h
is_felt252-IsInteger _ h = absurd h

pub includes-true : (d r : Range) → Within r d → includes d r ≡ true
includes-true d r h = rw (le→leb_ℤ d.lower r.lower h.0, le→leb_ℤ r.upper d.upper h.1)

-- The test of the casts and that of the operands choose the same extension.
extension :
    (b : Bool) (l : ℤ) (s u : ℕ)
    → (if ltb_ℤ l (pos 0) && not b then s else u) ≡ (if leb_ℤ (pos 0) l || b then u else s)
extension true l s u =
    rw (leb_of_ltb (pos 0) l) (elim (Bool-cases (ltb_ℤ l (pos 0))) [ inl e ↦ rw e | inr e ↦ rw e ])
extension false l s u =
    rw (leb_of_ltb (pos 0) l) (elim (Bool-cases (ltb_ℤ l (pos 0))) [ inl e ↦ rw e | inr e ↦ rw e ])

-- What a range keeps of its own bias.
pub repr_bias-InRange :
    (t : CoreTypeConcrete) (r : Range) → Shape (is_bounded_int t) r → InRange (repr_bias t r) r
unfolding repr_bias
repr_bias-InRange t r (biased b ne) = rw b (omega arith, ne)
repr_bias-InRange t r (natural v b e lo hi) =
    rw (b, lo, hi) (omega arith, omega (arith, two_pow_pos (suc v)))
repr_bias-InRange t r (twos v b e lo hi) =
    rw (b, lo, hi) (omega arith, omega (arith, two_pow_pos v))

pub upcast_offset-bias :
    (src : CoreTypeConcrete) (r : Range) (dst : CoreTypeConcrete) (d : Range)
    → upcast_offset src r dst d ≡ repr_bias src r -ℤ repr_bias dst d
unfolding upcast_offset repr_bias
upcast_offset-bias src r dst d = elim (Bool-cases (is_bounded_int src)) [
  | inl e ↦ elim (Bool-cases (is_bounded_int dst)) [
    | inl f ↦ rw (e, f)
    | inr f ↦ rw (e, f) (omega int_laws)
  ]
  | inr e ↦ elim (Bool-cases (is_bounded_int dst)) [
    | inl f ↦ rw (e, f) (omega int_laws)
    | inr f ↦ rw (e, f) (omega int_laws)
  ]
]

module _ {m : Mlir} (laws : IsMlir m) where
  -- A stored value in a width that is not smaller.
  pub extended-stored :
      (t : CoreTypeConcrete) (r : Range) (w : ℕ) (a : ℤ)
      → Shape (is_bounded_int t) r
      → InRange a r
      → repr_bit_width r ≤ w
      → (if ltb (repr_bit_width r) w
          then (if ltb_ℤ r.lower (pos 0) && not (is_bounded_int t)
              then m.extsi (repr_bit_width r) w (stored t r a)
              else m.extui (repr_bit_width r) w (stored t r a))
          else stored t r a)
        ≡ wrap w (a -ℤ repr_bias t r)
  unfolding widen_operand_to_compute
  extended-stored t r w a s h le = elim (Bool-cases (ltb (repr_bit_width r) w)) [
    | inl less ↦
        rw less (extension (is_bounded_int t) r.lower _ _ ∙ widen-stored laws t r w a s h le)
    | inr same ↦
        let e : repr_bit_width r ≡ w = ground (arith, le, same) in
        rw same (ap (λ n. wrap n (a -ℤ repr_bias t r)) e)
  ]

module _ {m : Mlir} (laws : IsMlir m) (src dst : CoreTypeConcrete) {r d : Range} (a : ℤ)
    (src_int : IsInteger src) (dst_int : IsInteger dst) (r_eq : integer_range src ≡ ok r)
    (d_eq : integer_range dst ≡ ok d) (inside : Within r d) (a_in : InRange a r) where
  -- For two different integer types, the range of the first inside that of the second, and a
  -- value of the first range, the code for the upcast passes its assertion and jumps to branch
  -- 0 with the value as it is stored in the second type.
  pub build_upcast-stored :
      build_upcast m false src dst (stored src r a) ≡ ok (0, stored dst d a ∷ [])
  unfolding build_upcast
  build_upcast-stored =
      let s = typed-Shape src src_int r_eq in
      let s' = typed-Shape dst dst_int d_eq in
      let x = repr_bias src r in
      let w = repr_bit_width d in
      let x_in = repr_bias-InRange src r s in
      let le : repr_bit_width r ≤ w =
        repr_bit_width-le r w (repr_bit_width-pos d) (omega arith)
          (omega (int_laws, size-le d (omega arith))) in
      let width : max (repr_bit_width r) w ≡ w = omega arith in
      rw
        (
          r_eq,
          d_eq,
          includes-true d r inside,
          width,
          extended-stored laws src r w a s a_in le,
          upcast_offset-bias src r dst d,
          const_int-wrap laws w (x -ℤ repr_bias dst d)
              (placed dst d x s' (omega arith, omega arith)),
          addi-wrap laws w (a -ℤ x) (x -ℤ repr_bias dst d),
          is_felt252-IsInteger dst dst_int,
        )
        (ap (λ z. ok (0, wrap w z ∷ [])) (omega int_laws))

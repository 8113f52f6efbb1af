-- ===== src/Libfuncs/BoundedInt/Stored.antt =====
-- How an integer is stored: by its distance from the lower bound in a `BoundedInt`, as a pattern
-- in two's complement in a plain integer type; and the shapes that the operand types have.
use cairo_native.Prelude.{ℕ, suc, ◌-◌, ◌^◌, ◌≡◌, refl, sym, Bool, true, false, ◌∙◌}
use cairo_native.Prelude.Int.{ℤ, pos, negsuc, ◌-ℤ◌, ◌<ℤ◌}
use mathlib.Core.Path.{subst}
use cairo_native.Error.{ok-injective, ok}
use cairo_native.Num.Bits.{bits}
use cairo_native.Num.Wrap.{wrap}
use cairo_native.Utils.RangeExt.{Range, size, repr_bit_width}
use cairo_native.Types.{
  CoreTypeConcrete, uint8, uint16, uint32, uint64, uint128, sint8, sint16, sint32, sint64, sint128,
  bounded_int, non_zero,
}
use cairo_native.Types.Integer.{integer_range, is_bounded_int}
use cairo_native.Libfuncs.BoundedInt.Operand.{integer_operand, repr_bias}

-- The types of an integer at run time; a `BoundedInt` has at least one value.
abbrev pub IsInteger : CoreTypeConcrete → Type 0
IsInteger uint8 = Unit
IsInteger uint16 = Unit
IsInteger uint32 = Unit
IsInteger uint64 = Unit
IsInteger uint128 = Unit
IsInteger sint8 = Unit
IsInteger sint16 = Unit
IsInteger sint32 = Unit
IsInteger sint64 = Unit
IsInteger sint128 = Unit
IsInteger (bounded_int r) = r.lower <ℤ r.upper
IsInteger (non_zero t) = IsInteger t
IsInteger _ = ⊥

-- The shape of a type: whether it is bounded, and its range.
pub data Shape (bounded : Bool) (r : Range) : Type 0 where
  biased : bounded ≡ true → r.lower <ℤ r.upper → Shape bounded r
  natural :
      (w : ℕ)
      → bounded ≡ false
      → repr_bit_width r ≡ suc w
      → r.lower ≡ pos 0
      → r.upper ≡ pos (2 ^ suc w)
      → Shape bounded r
  twos :
      (w : ℕ)
      → bounded ≡ false
      → repr_bit_width r ≡ suc w
      → r.lower ≡ negsuc (2 ^ w - 1)
      → r.upper ≡ pos (2 ^ w)
      → Shape bounded r

-- An integer type has a range, of one of the shapes.
pub record Typed (t : CoreTypeConcrete) : Type 0 where
  pub range : Range
  pub range_eq : integer_range t ≡ ok range
  pub shape : Shape (is_bounded_int t) range

-- The pattern that stands for `a` in the representation of a type with this range.
abbrev pub stored : CoreTypeConcrete → Range → ℤ → ℕ
stored t r a = wrap (repr_bit_width r) (a -ℤ repr_bias t r)

pub typed : (t : CoreTypeConcrete) → IsInteger t → Typed t
unfolding integer_range is_bounded_int repr_bit_width size bits ◌-ℤ◌
typed uint8 h = record { range = _; range_eq = refl; shape = natural 7 refl refl refl refl }
typed uint16 h = record { range = _; range_eq = refl; shape = natural 15 refl refl refl refl }
typed uint32 h = record { range = _; range_eq = refl; shape = natural 31 refl refl refl refl }
typed uint64 h = record { range = _; range_eq = refl; shape = natural 63 refl refl refl refl }
typed uint128 h = record { range = _; range_eq = refl; shape = natural 127 refl refl refl refl }
typed sint8 h = record { range = _; range_eq = refl; shape = twos 7 refl refl refl refl }
typed sint16 h = record { range = _; range_eq = refl; shape = twos 15 refl refl refl refl }
typed sint32 h = record { range = _; range_eq = refl; shape = twos 31 refl refl refl refl }
typed sint64 h = record { range = _; range_eq = refl; shape = twos 63 refl refl refl refl }
typed sint128 h = record { range = _; range_eq = refl; shape = twos 127 refl refl refl refl }
typed (bounded_int r) h = record { range = r; range_eq = refl; shape = biased refl h }
typed (non_zero t) h =
    let inner = typed t h in
    record { range = inner.range; range_eq = inner.range_eq; shape = inner.shape }
typed _ h = absurd h

pub typed-Shape :
    (t : CoreTypeConcrete) {r : Range}
    → IsInteger t
    → integer_range t ≡ ok r
    → Shape (is_bounded_int t) r
typed-Shape t h e =
    let known = typed t h in
    subst (Shape (is_bounded_int t)) (ok-injective (sym known.range_eq ∙ e)) known.shape

-- An operand of a known range.
pub integer_operand-ok :
    (t : CoreTypeConcrete) {r : Range}
    → integer_range t ≡ ok r
    → integer_operand t ≡ ok (record { ty = t; range = r })
unfolding integer_operand
integer_operand-ok t e = rw e

pub integer_range-bounded_int : (d : Range) → integer_range (bounded_int d) ≡ ok d
unfolding integer_range
integer_range-bounded_int d = refl

pub repr_bias-bounded_int : (d : Range) → repr_bias (bounded_int d) d ≡ d.lower
unfolding repr_bias is_bounded_int
repr_bias-bounded_int d = refl

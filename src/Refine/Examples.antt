-- ===== src/Refine/Examples.antt =====
-- The interpreter and the code at concrete arguments: an `i8`, an `u8` and ranges around zero.
use cairo_native.Prelude.{
  ℕ, ◌≡◌, ◌≢◌, sym, ◌/◌, ◌%◌, ◌==◌, refl, [], ◌∷◌, if◌then◌else◌, Option, some, arith,
}
use cairo_native.Prelude.Int.{ℤ, pos, negsuc, ◌-ℤ◌, ◌*ℤ◌, int_laws, pos_part-*ℤ, neg_part-*ℤ}
use mathlib.Core.Path.{subst}
use native.Mathlib.Nat.{div-le_self, mod-lt}
use cairo_native.Num.Bits.{bits}
use cairo_native.Num.Wrap.{wrap}
use cairo_native.Mlir.Wrapping.{wrapping, wrapping-IsMlir}
use cairo_native.Utils.RangeExt.{Range, repr_bit_width}
use cairo_native.Utils.RangeExt.Laws.{InRange}
use cairo_native.Types.{sint8, uint8, bounded_int, range_check}
use cairo_native.Types.Integer.{integer_range, is_bounded_int, signed_range, unsigned_range}
use cairo_native.Sierra.{add, mul, div_rem, constrain, trim}
use cairo_native.Libfuncs.BoundedInt.Operand.{repr_bias}
use cairo_native.Libfuncs.BoundedInt.Arith.{DivRemAlgorithm, known_small_rhs}
use cairo_native.Libfuncs.BoundedInt.Select.{build}
use cairo_native.Libfuncs.BoundedInt.Sums.{sum_range, difference_range}
use cairo_native.Libfuncs.BoundedInt.Division.{rem_range}
use cairo_native.Libfuncs.BoundedInt.Branches.{below, above}
use cairo_native.Emu.Value.{Value, unit}
use cairo_native.Emu.Numbers.{numeric_arg}
use cairo_native.Emu.BoundedInt.{eval, trim_arg}
use cairo_native.Refine.Encodes.{Encodes, Agree, integer}
use cairo_native.Refine.BoundedInt.Arith.{add-Agree, mul-Agree, div_rem-Agree}
use cairo_native.Refine.BoundedInt.Branches.{constrain-Agree, trim-Agree}

abbrev first_fits : Range → Range → Option DivRemAlgorithm
first_fits l r = some known_small_rhs

-- BoundedInt<-3, 5>
abbrev small : Range
small = record { lower = negsuc 2; upper = pos 6 }

minus_hundred : Encodes sint8 (Value.i8 (negsuc 99)) 156
unfolding integer_range numeric_arg repr_bias is_bounded_int wrap repr_bit_width bits ◌-ℤ◌
minus_hundred = integer (signed_range 8) (negsuc 99) tt refl refl (omega arith) refl

minus_two : Encodes (bounded_int small) (Value.bounded_int small (negsuc 1)) 1
unfolding integer_range numeric_arg repr_bias is_bounded_int wrap repr_bit_width bits ◌-ℤ◌
minus_two = integer small (negsuc 1) (omega arith) refl refl (omega arith) refl

abbrev mixed_sum : Range
mixed_sum = sum_range (signed_range 8) small

add-Agree_example :
    Agree
      (λ i. bounded_int mixed_sum ∷ [])
      (eval
        (add sint8 (bounded_int small) (bounded_int mixed_sum))
        (Value.i8 (negsuc 99) ∷ Value.bounded_int small (negsuc 1) ∷ []))
      (build wrapping first_fits
        (add sint8 (bounded_int small) (bounded_int mixed_sum))
        (156 ∷ 1 ∷ []))
unfolding integer_range
add-Agree_example =
    add-Agree wrapping-IsMlir first_fits sint8 (bounded_int small) refl refl minus_hundred minus_two

abbrev mixed_difference : Range
mixed_difference = difference_range (signed_range 8) small

-- BoundedInt<2, 2>
abbrev two : Range
two = record { lower = pos 2; upper = pos 3 }

just_two : Encodes (bounded_int two) (Value.bounded_int two (pos 2)) 0
unfolding integer_range numeric_arg repr_bias is_bounded_int wrap repr_bit_width bits ◌-ℤ◌
just_two = integer two (pos 2) (omega arith) refl refl (omega arith) refl

-- BoundedInt<-256, 254>
abbrev double : Range
double = record { lower = negsuc 255; upper = pos 255 }

doubled : (a b : ℤ) → InRange a (signed_range 8) → InRange b two → InRange (a *ℤ b) double
doubled a b h k =
    let e : b ≡ pos 2 = omega int_laws in
    subst (λ z. InRange (a *ℤ z) double) (sym e)
      (
        omega (arith, h, pos_part-*ℤ a (pos 2), neg_part-*ℤ a (pos 2)),
        omega (arith, h, pos_part-*ℤ a (pos 2), neg_part-*ℤ a (pos 2)),
      )

mul-Agree_example :
    Agree
      (λ i. bounded_int double ∷ [])
      (eval
        (mul sint8 (bounded_int two) (bounded_int double))
        (Value.i8 (negsuc 99) ∷ Value.bounded_int two (pos 2) ∷ []))
      (build wrapping first_fits (mul sint8 (bounded_int two) (bounded_int double)) (156 ∷ 0 ∷ []))
unfolding integer_range
mul-Agree_example =
    mul-Agree wrapping-IsMlir first_fits sint8 (bounded_int two) refl refl minus_hundred just_two
      double doubled

-- BoundedInt<2, 9>
abbrev divisor : Range
divisor = record { lower = pos 2; upper = pos 10 }

byte : Encodes uint8 (Value.u8 250) 250
unfolding integer_range numeric_arg repr_bias is_bounded_int wrap repr_bit_width bits ◌-ℤ◌
byte = integer (unsigned_range 8) (pos 250) tt refl refl (omega arith) refl

nine : Encodes (bounded_int divisor) (Value.bounded_int divisor (pos 9)) 7
unfolding integer_range numeric_arg repr_bias is_bounded_int wrap repr_bit_width bits ◌-ℤ◌
nine = integer divisor (pos 9) (omega arith) refl refl (omega arith) refl

divided :
    (x y : ℕ)
    → InRange (pos x) (unsigned_range 8)
    → InRange (pos y) divisor
    → InRange (pos (x / y)) (unsigned_range 8) × InRange (pos (x % y)) (rem_range (pos 9))
divided x y h k = (
  (omega arith, omega (arith, h, div-le_self x y)),
  (omega arith, omega (arith, k, mod-lt x {m = y} (omega (arith, k)))),
)

div_rem-Agree_example :
    Agree
      (λ i. range_check ∷ bounded_int (unsigned_range 8) ∷ bounded_int (rem_range (pos 9)) ∷ [])
      (eval
        (div_rem uint8
          (bounded_int divisor)
          (bounded_int (unsigned_range 8))
          (bounded_int (rem_range (pos 9))))
        (unit ∷ Value.u8 250 ∷ Value.bounded_int divisor (pos 9) ∷ []))
      (build wrapping first_fits
        (div_rem uint8
          (bounded_int divisor)
          (bounded_int (unsigned_range 8))
          (bounded_int (rem_range (pos 9))))
        (11 ∷ 250 ∷ 7 ∷ []))
unfolding integer_range
div_rem-Agree_example =
    div_rem-Agree wrapping-IsMlir first_fits uint8 (bounded_int divisor) refl refl byte nine
      (unsigned_range 8) (pos 9) 11 known_small_rhs refl (omega arith) (omega arith) (omega arith)
      (omega arith) divided

constrain-Agree_example :
    Agree
      (λ i.
        range_check
        ∷ (if i == 0
            then bounded_int (below (signed_range 8) (pos 0))
            else bounded_int (above (signed_range 8) (pos 0)))
        ∷ [])
      (eval
        (constrain sint8
          (bounded_int (below (signed_range 8) (pos 0)))
          (bounded_int (above (signed_range 8) (pos 0)))
          (pos 0))
        (unit ∷ Value.i8 (negsuc 99) ∷ []))
      (build wrapping first_fits
        (constrain sint8
          (bounded_int (below (signed_range 8) (pos 0)))
          (bounded_int (above (signed_range 8) (pos 0)))
          (pos 0))
        (4 ∷ 156 ∷ []))
unfolding integer_range
constrain-Agree_example =
    constrain-Agree wrapping-IsMlir first_fits sint8 refl minus_hundred (pos 0) 4 (omega arith)
      (omega arith) (omega arith)

-- BoundedInt<-127, 127>
abbrev trimmed : Range
trimmed = record { lower = negsuc 126; upper = pos 128 }

rest_in : (a : ℤ) → InRange a (signed_range 8) → a ≢ negsuc 127 → InRange a trimmed
rest_in a h ne = grind (int_laws, h, ne)

trim-Agree_example :
    Agree
      (λ i. if i == 0 then [] else bounded_int trimmed ∷ [])
      (eval (trim sint8 (bounded_int trimmed) (negsuc 127)) (Value.i8 (negsuc 99) ∷ []))
      (build wrapping first_fits (trim sint8 (bounded_int trimmed) (negsuc 127)) (156 ∷ []))
unfolding integer_range trim_arg
trim-Agree_example =
    trim-Agree wrapping-IsMlir first_fits sint8 refl minus_hundred (negsuc 127) trimmed refl
      (omega arith) (omega arith) (λ a h ne. rest_in a h ne) (omega arith)

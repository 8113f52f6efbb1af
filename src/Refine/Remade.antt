-- ===== src/Refine/Remade.antt =====
-- `get_value_from_integer` of debug_utils/sierra-emu/src/utils.rs gives an integer of the range of
-- an integer type back as a value of the type.
use cairo_native.Prelude.{ℕ, ◌^◌, ◌≡◌, refl, some, arith, ◌∙◌, sym}
use cairo_native.Prelude.Int.{ℤ, pos, negsuc, ◌<ℤ◌}
use mathlib.Core.Path.{subst}
use cairo_native.Error.{ok-injective, ok}
use cairo_native.Utils.RangeExt.{Range}
use cairo_native.Utils.RangeExt.Laws.{InRange}
use cairo_native.Types.{
  CoreTypeConcrete, uint8, uint16, uint32, uint64, uint128, sint8, sint16, sint32, sint64, sint128,
  bounded_int, non_zero,
}
use cairo_native.Types.Integer.{integer_range, is_bounded_int, signed_range, unsigned_range}
use cairo_native.Libfuncs.BoundedInt.Operand.{repr_bias}
use cairo_native.Libfuncs.BoundedInt.Stored.{IsInteger, stored}
use cairo_native.Libfuncs.BoundedInt.Branches.{le→leb_ℤ, lt→ltb_ℤ}
use cairo_native.Emu.Value.{Value}
use cairo_native.Emu.Numbers.{numeric_arg, get_value_from_integer, to_unsigned, to_signed}
use cairo_native.Refine.Encodes.{Encodes, integer}

-- A value of the interpreter that holds the integer.
pub record Remade (t : CoreTypeConcrete) (a : ℤ) : Type 0 where
  pub value : Value
  pub value_eq : get_value_from_integer t a ≡ some value
  pub numeric : numeric_arg value ≡ some a

to_unsigned-some :
    (w n : ℕ) (make : ℕ → Value) → pos n <ℤ pos (2 ^ w) → to_unsigned w make (pos n) ≡ some (make n)
to_unsigned-some w n make h = rw (lt→ltb_ℤ (pos n) (pos (2 ^ w)) h)

to_signed-some :
    (w : ℕ) (a : ℤ) (make : ℤ → Value)
    → InRange a (signed_range w)
    → to_signed w make a ≡ some (make a)
to_signed-some w a make h =
    rw (le→leb_ℤ (signed_range w).lower a h.0, lt→ltb_ℤ a (signed_range w).upper h.1)

unsigned-Remade :
    (w : ℕ) (make : ℕ → Value) (t : CoreTypeConcrete)
    → ((a : ℤ) → get_value_from_integer t a ≡ to_unsigned w make a)
    → ((n : ℕ) → numeric_arg (make n) ≡ some (pos n))
    → (a : ℤ) → InRange a (unsigned_range w)
    → Remade t a
unsigned-Remade w make t e f (pos n) h = record {
  value = make n;
  value_eq = e (pos n) ∙ to_unsigned-some w n make h.1;
  numeric = f n;
}
unsigned-Remade w make t e f (negsuc n) h = absurd (omega (arith, h))

signed-Remade :
    (w : ℕ) (make : ℤ → Value) (t : CoreTypeConcrete)
    → ((a : ℤ) → get_value_from_integer t a ≡ to_signed w make a)
    → ((a : ℤ) → numeric_arg (make a) ≡ some a)
    → (a : ℤ) → InRange a (signed_range w)
    → Remade t a
signed-Remade w make t e f a h = record {
  value = make a;
  value_eq = e a ∙ to_signed-some w a make h;
  numeric = f a;
}

-- The integer of a type is in the range that the type has.
range_of : {r s : Range} (a : ℤ) → ok s ≡ ok r → InRange a r → InRange a s
range_of a e h = subst (InRange a) (ok-injective (sym e)) h

pub get_value_from_integer-Remade :
    (t : CoreTypeConcrete) (a : ℤ) {r : Range}
    → IsInteger t
    → integer_range t ≡ ok r
    → InRange a r
    → Remade t a
unfolding get_value_from_integer numeric_arg integer_range
get_value_from_integer-Remade uint8 a _ e h =
    unsigned-Remade 8 Value.u8 uint8 (λ _. refl) (λ _. refl) a (range_of a e h)
get_value_from_integer-Remade uint16 a _ e h =
    unsigned-Remade 16 Value.u16 uint16 (λ _. refl) (λ _. refl) a (range_of a e h)
get_value_from_integer-Remade uint32 a _ e h =
    unsigned-Remade 32 Value.u32 uint32 (λ _. refl) (λ _. refl) a (range_of a e h)
get_value_from_integer-Remade uint64 a _ e h =
    unsigned-Remade 64 Value.u64 uint64 (λ _. refl) (λ _. refl) a (range_of a e h)
get_value_from_integer-Remade uint128 a _ e h =
    unsigned-Remade 128 Value.u128 uint128 (λ _. refl) (λ _. refl) a (range_of a e h)
get_value_from_integer-Remade sint8 a _ e h =
    signed-Remade 8 Value.i8 sint8 (λ _. refl) (λ _. refl) a (range_of a e h)
get_value_from_integer-Remade sint16 a _ e h =
    signed-Remade 16 Value.i16 sint16 (λ _. refl) (λ _. refl) a (range_of a e h)
get_value_from_integer-Remade sint32 a _ e h =
    signed-Remade 32 Value.i32 sint32 (λ _. refl) (λ _. refl) a (range_of a e h)
get_value_from_integer-Remade sint64 a _ e h =
    signed-Remade 64 Value.i64 sint64 (λ _. refl) (λ _. refl) a (range_of a e h)
get_value_from_integer-Remade sint128 a _ e h =
    signed-Remade 128 Value.i128 sint128 (λ _. refl) (λ _. refl) a (range_of a e h)
get_value_from_integer-Remade (bounded_int r) a _ e h = record {
  value = Value.bounded_int r a;
  value_eq = refl;
  numeric = refl;
}
get_value_from_integer-Remade (non_zero t) a i e h =
    let inner = get_value_from_integer-Remade t a i e h in
    record { value = inner.value; value_eq = inner.value_eq; numeric = inner.numeric }
get_value_from_integer-Remade _ a i e h = absurd i

pub non_zero-value :
    (t : CoreTypeConcrete) (a : ℤ)
    → get_value_from_integer (non_zero t) a ≡ get_value_from_integer t a
unfolding get_value_from_integer
non_zero-value t a = refl

-- A `NonZero` stores its integer as the type inside does.
pub non_zero-Encodes :
    (t : CoreTypeConcrete) {r : Range} {v : Value} {a : ℤ}
    → integer_range t ≡ ok r
    → IsInteger t
    → numeric_arg v ≡ some a
    → InRange a r
    → Encodes (non_zero t) v (stored t r a)
unfolding integer_range repr_bias is_bounded_int
non_zero-Encodes t {r} {v} {a} e i n h = integer r a i e n h refl

-- ===== src/Refine/Encodes.antt =====
-- When a bit pattern stands for a value of the interpreter, and when two results agree.
use cairo_native.Prelude.{
  ℕ, ◌^◌, ◌<◌, ◌≡◌, ◌≢◌, refl, sym, ap, ◌∙◌, arith, Option, some, List, [], ◌∷◌,
}
use cairo_native.Prelude.Int.{ℤ}
use mathlib.Core.Path.{subst}
use cairo_native.Error.{ok-injective, Result, Error, ok, err, integer_like_type_expected}
use cairo_native.Utils.RangeExt.{Range}
use cairo_native.Utils.RangeExt.Laws.{InRange}
use cairo_native.Types.{CoreTypeConcrete, range_check, bounded_int}
use cairo_native.Types.Integer.{integer_range}
use cairo_native.Libfuncs.Counter.{Jump}
use cairo_native.Libfuncs.BoundedInt.Stored.{IsInteger, stored}
use cairo_native.Emu.Value.{Value, EvalAction, normal_branch, unit}
use cairo_native.Emu.Numbers.{numeric_arg}

-- An integer is stored as its type says. The range check counter has no value in the interpreter.
pub data Encodes : CoreTypeConcrete → Value → ℕ → Type 0 where
  integer :
      {t : CoreTypeConcrete} {v : Value} {p : ℕ} (r : Range) (a : ℤ)
      → IsInteger t
      → integer_range t ≡ ok r
      → numeric_arg v ≡ some a
      → InRange a r
      → p ≡ stored t r a
      → Encodes t v p
  counter :
      {t : CoreTypeConcrete} {v : Value} {p : ℕ}
      → t ≡ range_check
      → v ≡ unit
      → p < 2 ^ 64
      → Encodes t v p

abbrev pub EncodesAll : List CoreTypeConcrete → List Value → List ℕ → Type 0
EncodesAll [] [] [] = Unit
EncodesAll (t ∷ ts) (v ∷ vs) (p ∷ ps) = Encodes t v p × EncodesAll ts vs ps
EncodesAll _ _ _ = ⊥

-- The interpreter goes on in a branch, and the native code jumps to it with matching results.
pub data Agree (branch : ℕ → List CoreTypeConcrete) : Option EvalAction → Result Jump → Type 0 where
  agree :
      {e : Option EvalAction} {j : Result Jump} (i : ℕ) (vs : List Value) (ps : List ℕ)
      → e ≡ some (normal_branch i vs)
      → j ≡ ok (i, ps)
      → EncodesAll (branch i) vs ps
      → Agree branch e j

-- A value of a known range and its pattern.
pub record Number (t : CoreTypeConcrete) (r : Range) (v : Value) (p : ℕ) : Type 0 where
  pub value : ℤ
  pub is_integer : IsInteger t
  pub numeric : numeric_arg v ≡ some value
  pub in_range : InRange value r
  pub pattern_eq : p ≡ stored t r value

unit_range : integer_range range_check ≡ err integer_like_type_expected
unfolding integer_range
unit_range = refl

not_ok : {r : Range} {e : Error} → err e ≢ ok r
not_ok h = cc

pub Encodes-Number :
    (t : CoreTypeConcrete) {r : Range} {v : Value} {p : ℕ}
    → integer_range t ≡ ok r
    → Encodes t v p
    → Number t r v p
Encodes-Number t e (integer s a h f n i eq) =
    let same = ok-injective (sym f ∙ e) in
    record {
      value = a;
      is_integer = h;
      numeric = n;
      in_range = subst (InRange a) same i;
      pattern_eq = eq ∙ ap (λ r. stored t r a) same;
    }
Encodes-Number t e (counter same _ _) =
    absurd (not_ok (sym (ap integer_range same ∙ unit_range) ∙ e))

-- A result in a `BoundedInt` that holds it.
pub bounded_int-Encodes :
    (d : Range) (a : ℤ)
    → InRange a d
    → Encodes (bounded_int d) (Value.bounded_int d a) (stored (bounded_int d) d a)
unfolding integer_range numeric_arg
bounded_int-Encodes d a h = integer d a (omega arith) refl refl h refl

-- ===== src/Refine/Sint.antt =====
-- The signed integer types and their words, as src/types.rs and debug_utils/sierra-emu's vm/int.rs
-- know them, and what the interpreter does on them. `Operation` compares the two.
pub mod Operation
use cairo_native.Prelude.{
  ℕ, suc, ◌+◌, ◌-◌, ◌^◌, ◌%◌, ◌≡◌, ◌<◌, refl, sym, ap, ◌∙◌, arith, Bool, true, false, not, ltb,
  ◌&&◌, some, none, if◌then◌else◌, Bool-cases, inl, inr, [], ◌∷◌, Option,
}
use cairo_native.Prelude.Int.{
  ℤ, pos, negsuc, ltb_ℤ, leb_ℤ, ◌-ℤ◌, int_laws, ◌≤ℤ◌, ◌<ℤ◌, pos_part, one_part,
}
use cairo_native.Error.{ok, err, Result}
use cairo_native.Num.Bits.{bits, two_pow_pos, two_pow_suc}
use cairo_native.Num.Wrap.{wrap, wrap-lt}
use native.Mathlib.Nat.{mod-eq_of_lt}
use cairo_native.Mlir.{Mlir, IsMlir, signed}
use cairo_native.Mlir.Laws.{add-sub-one}
use cairo_native.Utils.RangeExt.{Range, size, repr_bit_width}
use cairo_native.Utils.RangeExt.Laws.{InRange}
use cairo_native.Types.{CoreTypeConcrete, sint8, sint16, sint32, sint64, sint128, range_check}
use cairo_native.Types.Integer.{integer_range, integer_width, is_bounded_int, signed_range}
use cairo_native.Sierra.{IntOperator, exact}
use cairo_native.Libfuncs.Counter.{Jump}
use cairo_native.Libfuncs.BoundedInt.Operand.{repr_bias}
use cairo_native.Libfuncs.BoundedInt.Stored.{IsInteger, stored}
use cairo_native.Libfuncs.BoundedInt.Branches.{le→leb_ℤ, lt→ltb_ℤ}
use cairo_native.Libfuncs.Int.Operation.{build_operation, is_i128}
use cairo_native.Libfuncs.Int.Overflow.{signed_bounds, build_operation-signed, leb_of_ltb}
use cairo_native.Emu.Value.{Value, EvalAction, normal_branch, unit}
use cairo_native.Emu.Numbers.{numeric_arg, get_value_from_integer}
use cairo_native.Emu.Int.{within, overflowing_op, apply_overflowing_op_for_type, eval_operation}
use cairo_native.Refine.Encodes.{Encodes, Agree, agree, counter, integer, Encodes-Number}
use cairo_native.Refine.Remade.{get_value_from_integer-Remade}

-- The signed types of `v` + 1 bits, as the compiler and the interpreter know them.
pub record Signed (t : CoreTypeConcrete) (v : ℕ) : Type 0 where
  pub is_integer : IsInteger t
  pub range_eq : integer_range t ≡ ok (signed_bounds v)
  pub width_eq : integer_width t ≡ ok (suc v)
  pub repr_width_eq : repr_bit_width (signed_bounds v) ≡ suc v
  pub bias_eq : repr_bias t (signed_bounds v) ≡ pos 0
  pub op_eq :
      (a b : ℤ) (op : IntOperator)
      → apply_overflowing_op_for_type t a b op ≡ overflowing_op true (suc v) a b op

abbrev pub IsSigned : CoreTypeConcrete → Type 0
IsSigned sint8 = Unit
IsSigned sint16 = Unit
IsSigned sint32 = Unit
IsSigned sint64 = Unit
IsSigned sint128 = Unit
IsSigned _ = ⊥

-- The width without the sign.
abbrev pub magnitude_width : CoreTypeConcrete → ℕ
magnitude_width sint8 = 7
magnitude_width sint16 = 15
magnitude_width sint32 = 31
magnitude_width sint64 = 63
magnitude_width sint128 = 127
magnitude_width _ = 0

pub IsSigned-Signed : (t : CoreTypeConcrete) → IsSigned t → Signed t (magnitude_width t)
unfolding integer_range integer_width repr_bit_width repr_bias is_bounded_int bits ◌-ℤ◌ size
    apply_overflowing_op_for_type
IsSigned-Signed sint8 h = record {
  is_integer = tt;
  range_eq = refl;
  width_eq = refl;
  repr_width_eq = refl;
  bias_eq = refl;
  op_eq = λ a b op. refl;
}
IsSigned-Signed sint16 h = record {
  is_integer = tt;
  range_eq = refl;
  width_eq = refl;
  repr_width_eq = refl;
  bias_eq = refl;
  op_eq = λ a b op. refl;
}
IsSigned-Signed sint32 h = record {
  is_integer = tt;
  range_eq = refl;
  width_eq = refl;
  repr_width_eq = refl;
  bias_eq = refl;
  op_eq = λ a b op. refl;
}
IsSigned-Signed sint64 h = record {
  is_integer = tt;
  range_eq = refl;
  width_eq = refl;
  repr_width_eq = refl;
  bias_eq = refl;
  op_eq = λ a b op. refl;
}
IsSigned-Signed sint128 h = record {
  is_integer = tt;
  range_eq = refl;
  width_eq = refl;
  repr_width_eq = refl;
  bias_eq = refl;
  op_eq = λ a b op. refl;
}
IsSigned-Signed _ h = absurd h

-- The integer that a word of `v` + 1 bits stands for.
pub signed-InRange : (v x : ℕ) → x < 2 ^ suc v → InRange (signed (suc v) x) (signed_bounds v)
signed-InRange v x h = rw (add-sub-one v) (ground (arith, two_pow_suc v, two_pow_pos v))

complement-lt : (v x : ℕ) → 2 ^ suc v - x - 1 < 2 ^ suc v
complement-lt v x = omega (arith, two_pow_pos (suc v))

wrap-signed : (v x : ℕ) → x < 2 ^ suc v → wrap (suc v) (signed (suc v) x) ≡ x
unfolding wrap
wrap-signed v x h = rw (add-sub-one v) (elim (Bool-cases (ltb x (2 ^ v))) [
  | inl low ↦ rw low (mod-eq_of_lt h)
  | inr high ↦ rw (high, mod-eq_of_lt (complement-lt v x)) (omega (arith, h))
])

module _ (t : CoreTypeConcrete) {v : ℕ} (s : Signed t v) where
  pub stored-wrap : (a : ℤ) → stored t (signed_bounds v) a ≡ wrap (suc v) a
  stored-wrap a = rw (s.repr_width_eq, s.bias_eq) (ap (wrap (suc v)) (omega int_laws))

  pub wrapped-Encodes :
      (z : ℤ) {x : Value}
      → numeric_arg x ≡ some (signed (suc v) (wrap (suc v) z))
      → Encodes t x (wrap (suc v) z)
  wrapped-Encodes z e =
      let word = wrap (suc v) z in
      let e_in = signed-InRange v word (wrap-lt (suc v) z) in
      integer (signed_bounds v) (signed (suc v) word) s.is_integer s.range_eq e e_in
        (sym (stored-wrap (signed (suc v) word) ∙ wrap-signed v word (wrap-lt (suc v) z)))

  pub eval_operation-wrapped :
      (op : IntOperator) (x y : Value) (a b : ℤ) {r : Value}
      → numeric_arg x ≡ some a
      → numeric_arg y ≡ some b
      → InRange a (signed_bounds v)
      → InRange b (signed_bounds v)
      → get_value_from_integer t (signed (suc v) (wrap (suc v) (exact op a b))) ≡ some r
      → eval_operation t op (unit ∷ x ∷ y ∷ [])
        ≡ some (
            normal_branch
              (if not (within (signed_bounds v) (exact op a b)) then 1 else 0)
              (unit ∷ r ∷ []))
  unfolding eval_operation
  eval_operation-wrapped op x y a b e f h k value = rw (
    e,
    f,
    s.op_eq a b op,
    ap (λ n. leb_ℤ (negsuc (2 ^ n - 1)) a) (add-sub-one v) ∙ le→leb_ℤ (signed_bounds v).lower a h.0,
    ap (λ n. ltb_ℤ a (pos (2 ^ n))) (add-sub-one v) ∙ lt→ltb_ℤ a (pos (2 ^ v)) h.1,
    ap (λ n. leb_ℤ (negsuc (2 ^ n - 1)) b) (add-sub-one v) ∙ le→leb_ℤ (signed_bounds v).lower b k.0,
    ap (λ n. ltb_ℤ b (pos (2 ^ n))) (add-sub-one v) ∙ lt→ltb_ℤ b (pos (2 ^ v)) k.1,
    value,
    ap (λ n. within (record { lower = negsuc (2 ^ n - 1); upper = pos (2 ^ n) }) (exact op a b))
        (add-sub-one v),
  )

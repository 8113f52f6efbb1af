-- ===== src/Refine/Int.antt =====
-- Library functions on plain integer types: the emitted code against debug_utils/sierra-emu's
-- vm/int.rs.
use cairo_native.Prelude.{
  ℕ, ◌+◌, ◌^◌, ◌%◌, ◌≡◌, ◌<◌, refl, sym, ap, ◌∙◌, arith, false, not, some, if◌then◌else◌,
  Bool-cases, inl, inr, [], ◌∷◌,
}
use cairo_native.Prelude.Int.{ℤ, pos, pos_part, one_part, ◌-ℤ◌, int_laws}
use cairo_native.Error.{ok}
use cairo_native.Num.Wrap.{wrap, wrap-lt}
use cairo_native.Mlir.{Mlir, IsMlir}
use cairo_native.Utils.RangeExt.{size, repr_bit_width}
use cairo_native.Num.Bits.{bits}
use cairo_native.Libfuncs.BoundedInt.Convert.{wrap_eq_nat, eq_pos_part}
use cairo_native.Utils.RangeExt.Laws.{InRange}
use cairo_native.Types.{CoreTypeConcrete, uint8, uint16, uint32, uint64, uint128, range_check}
use cairo_native.Types.Integer.{integer_range, integer_width, is_bounded_int}
use cairo_native.Sierra.{IntOperator, exact}
use cairo_native.Libfuncs.BoundedInt.Operand.{repr_bias}
use cairo_native.Libfuncs.BoundedInt.Stored.{IsInteger, stored}
use cairo_native.Libfuncs.BoundedInt.Branches.{le→leb_ℤ, lt→ltb_ℤ}
use cairo_native.Libfuncs.Int.Operation.{build_operation}
use cairo_native.Libfuncs.Int.Overflow.{unsigned_bounds, build_operation-unsigned}
use cairo_native.Emu.Value.{Value, normal_branch, unit}
use cairo_native.Emu.Numbers.{numeric_arg, get_value_from_integer}
use cairo_native.Emu.Int.{within, overflowing_op, apply_overflowing_op_for_type, eval_operation}
use cairo_native.Refine.Encodes.{Encodes, Agree, agree, counter, integer, Encodes-Number}
use cairo_native.Refine.Remade.{get_value_from_integer-Remade}

-- The unsigned types with their widths, as the compiler and the interpreter know them.
pub record Unsigned (t : CoreTypeConcrete) (w : ℕ) : Type 0 where
  pub is_integer : IsInteger t
  pub range_eq : integer_range t ≡ ok (unsigned_bounds w)
  pub width_eq : integer_width t ≡ ok w
  pub repr_width_eq : repr_bit_width (unsigned_bounds w) ≡ w
  pub bias_eq : repr_bias t (unsigned_bounds w) ≡ pos 0
  pub op_eq :
      (a b : ℤ) (op : IntOperator)
      → apply_overflowing_op_for_type t a b op ≡ overflowing_op false w a b op

abbrev pub IsUnsigned : CoreTypeConcrete → Type 0
IsUnsigned uint8 = Unit
IsUnsigned uint16 = Unit
IsUnsigned uint32 = Unit
IsUnsigned uint64 = Unit
IsUnsigned uint128 = Unit
IsUnsigned _ = ⊥

abbrev pub width_of : CoreTypeConcrete → ℕ
width_of uint8 = 8
width_of uint16 = 16
width_of uint32 = 32
width_of uint64 = 64
width_of uint128 = 128
width_of _ = 0

IsUnsigned-Unsigned : (t : CoreTypeConcrete) → IsUnsigned t → Unsigned t (width_of t)
unfolding integer_range integer_width repr_bit_width repr_bias is_bounded_int bits ◌-ℤ◌ size
    apply_overflowing_op_for_type
IsUnsigned-Unsigned uint8 h = record {
  is_integer = tt;
  range_eq = refl;
  width_eq = refl;
  repr_width_eq = refl;
  bias_eq = refl;
  op_eq = λ a b op. refl;
}
IsUnsigned-Unsigned uint16 h = record {
  is_integer = tt;
  range_eq = refl;
  width_eq = refl;
  repr_width_eq = refl;
  bias_eq = refl;
  op_eq = λ a b op. refl;
}
IsUnsigned-Unsigned uint32 h = record {
  is_integer = tt;
  range_eq = refl;
  width_eq = refl;
  repr_width_eq = refl;
  bias_eq = refl;
  op_eq = λ a b op. refl;
}
IsUnsigned-Unsigned uint64 h = record {
  is_integer = tt;
  range_eq = refl;
  width_eq = refl;
  repr_width_eq = refl;
  bias_eq = refl;
  op_eq = λ a b op. refl;
}
IsUnsigned-Unsigned uint128 h = record {
  is_integer = tt;
  range_eq = refl;
  width_eq = refl;
  repr_width_eq = refl;
  bias_eq = refl;
  op_eq = λ a b op. refl;
}
IsUnsigned-Unsigned _ h = absurd h

module _ (t : CoreTypeConcrete) {w : ℕ} (u : Unsigned t w) where
  -- A number is its own pattern.
  stored-nat : (a : ℤ) → InRange a (unsigned_bounds w) → stored t (unsigned_bounds w) a ≡ pos_part a
  stored-nat a h =
      rw (u.repr_width_eq, u.bias_eq)
        (wrap_eq_nat w (pos_part a) (a -ℤ pos 0)
          (eq_pos_part (a -ℤ pos 0) (omega int_laws)
            ∙ ap pos (omega (int_laws, one_part a, one_part (a -ℤ pos 0))))
          (omega (arith, h, one_part a)))

  -- The number that the interpreter wraps around to.
  wrapped_in : (z : ℤ) → InRange (pos (wrap w z)) (unsigned_bounds w)
  wrapped_in z = (omega arith, omega (arith, wrap-lt w z))

  wrapped-Encodes :
      (z : ℤ) {v : Value} → numeric_arg v ≡ some (pos (wrap w z)) → Encodes t v (wrap w z)
  wrapped-Encodes z e =
      integer (unsigned_bounds w) (pos (wrap w z)) u.is_integer u.range_eq e (wrapped_in z)
        (sym (stored-nat (pos (wrap w z)) (wrapped_in z)))

  eval_operation-wrapped :
      (op : IntOperator) (x y : Value) (a b : ℤ) {v : Value}
      → numeric_arg x ≡ some a
      → numeric_arg y ≡ some b
      → InRange a (unsigned_bounds w)
      → InRange b (unsigned_bounds w)
      → get_value_from_integer t (pos (wrap w (exact op a b))) ≡ some v
      → eval_operation t op (unit ∷ x ∷ y ∷ [])
        ≡ some (
            normal_branch
              (if not (within (unsigned_bounds w) (exact op a b)) then 1 else 0)
              (unit ∷ v ∷ []))
  unfolding eval_operation
  eval_operation-wrapped op x y a b e f h k value = rw (
    e,
    f,
    u.op_eq a b op,
    le→leb_ℤ (pos 0) a h.0,
    lt→ltb_ℤ a (pos (2 ^ w)) h.1,
    le→leb_ℤ (pos 0) b k.0,
    lt→ltb_ℤ b (pos (2 ^ w)) k.1,
    value,
  )

-- On the counter and a pattern and a value of each of two integers of one unsigned type, the code
-- for an overflowing addition or subtraction jumps to the branch that the interpreter takes,
-- with the counter and a pattern for the number that the interpreter wraps around to.
pub operation-Agree :
    {m : Mlir} (laws : IsMlir m) (t : CoreTypeConcrete)
    → IsUnsigned t
    → (op : IntOperator) (c : ℕ) {v v' : Value} {p p' : ℕ} → c < 2 ^ 64
    → Encodes t v p
    → Encodes t v' p'
    → Agree
        (λ i. range_check ∷ t ∷ [])
        (eval_operation t op (unit ∷ v ∷ v' ∷ []))
        (build_operation m t op c p p')
operation-Agree {m} laws t h op c {v} {v'} {p} {p'} c_lt enc enc' =
    let w = width_of t in
    let u = IsUnsigned-Unsigned t h in
    let x = Encodes-Number t u.range_eq enc in
    let y = Encodes-Number t u.range_eq enc' in
    let a = x.value in
    let b = y.value in
    let z = exact op a b in
    let p_eq : p ≡ pos_part a = x.pattern_eq ∙ stored-nat t u a x.in_range in
    let p'_eq : p' ≡ pos_part b = y.pattern_eq ∙ stored-nat t u b y.in_range in
    let remade =
      get_value_from_integer-Remade t (pos (wrap w z)) u.is_integer u.range_eq (wrapped_in t u z) in
    let ran =
      eval_operation-wrapped t u op v v' a b x.numeric y.numeric x.in_range y.in_range
        remade.value_eq in
    let code =
      build_operation-unsigned laws t w u.range_eq u.width_eq (pos_part a) (pos_part b)
        (omega (arith, x.in_range, one_part a)) (omega (arith, y.in_range, one_part b)) c c_lt op in
    let same : build_operation m t op c p p'
        ≡ ok (
            if within (unsigned_bounds w) z
            then (0, (c + 1) % 2 ^ 64 ∷ wrap w z ∷ [])
            else (1, (c + 1) % 2 ^ 64 ∷ wrap w z ∷ [])) =
      rw (p_eq, p'_eq, eq_pos_part a (x.in_range.0), eq_pos_part b (y.in_range.0)) code in
    let result = wrapped-Encodes t u z remade.numeric in
    elim (Bool-cases (within (unsigned_bounds w) z)) [
      | inl inside ↦
          agree 0 (unit ∷ remade.value ∷ []) ((c + 1) % 2 ^ 64 ∷ wrap w z ∷ []) (ran ∙ rw inside)
            (same ∙ rw inside) (counter refl refl (omega arith), (result, tt))
      | inr outside ↦
          agree 1 (unit ∷ remade.value ∷ []) ((c + 1) % 2 ^ 64 ∷ wrap w z ∷ []) (ran ∙ rw outside)
            (same ∙ rw outside) (counter refl refl (omega arith), (result, tt))
    ]

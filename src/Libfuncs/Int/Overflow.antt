-- ===== src/Libfuncs/Int/Overflow.antt =====
-- What `build_operation` and `build_diff` emit: the result of the operation as a word, and the
-- branch that says whether the integer result is below, in or above the range of the type.
use cairo_native.Prelude.{
  ℕ, suc, ◌+◌, ◌-◌, ◌^◌, ◌%◌, ◌≡◌, ◌<◌, refl, ap, ◌∙◌, arith, Bool, true, false, not, ◌&&◌,
  if◌then◌else◌, Bool-cases, inl, inr, [], ◌∷◌,
}
use cairo_native.Prelude.Int.{ℤ, pos, negsuc, ◌-ℤ◌, ◌≤ℤ◌, ◌<ℤ◌, ltb_ℤ, leb_ℤ, eqb_ℤ, int_laws}
use cairo_native.Error.{ok}
use cairo_native.Num.Bits.{two_pow_pos, two_pow_suc}
use cairo_native.Num.Wrap.{wrap, wrap-lt}
use native.Mathlib.Nat.{mod-eq_of_lt}
use cairo_native.Mlir.{Mlir, IsMlir, sge, compares, unsigned_overflow}
use cairo_native.Mlir.Laws.{signed-wrap, subi-wrap, add-sub-one}
use cairo_native.Utils.RangeExt.{Range}
use cairo_native.Utils.RangeExt.Laws.{InRange}
use cairo_native.Types.{CoreTypeConcrete}
use cairo_native.Types.Integer.{integer_range, integer_width}
use cairo_native.Libfuncs.Counter.{
  Jump, increment_builtin_counter, increment_builtin_counter_by, increment_builtin_counter_by_lem,
}
use cairo_native.Libfuncs.BoundedInt.Branches.{ltb_ℤ→lt, ltb_ℤ→ge, lt→ltb_ℤ}
use cairo_native.Sierra.{IntOperator, exact, overflowing_add, overflowing_sub}
use cairo_native.Libfuncs.Int.Operation.{overflow_op, is_i128, build_operation, build_diff}

-- The ranges of a signed type of `v + 1` bits and of an unsigned type of `w` bits.
abbrev pub signed_bounds : ℕ → Range
signed_bounds v = record { lower = negsuc (2 ^ v - 1); upper = pos (2 ^ v) }

abbrev pub unsigned_bounds : ℕ → Range
unsigned_bounds w = record { lower = pos 0; upper = pos (2 ^ w) }

exact-bounds :
    (op : IntOperator) (v : ℕ) (a b : ℤ)
    → InRange a (signed_bounds v)
    → InRange b (signed_bounds v)
    → InRange (exact op a b) (signed_bounds (suc v))
exact-bounds overflowing_add v a b h k = omega (int_laws, h, k, two_pow_suc v, two_pow_pos v)
exact-bounds overflowing_sub v a b h k = omega (int_laws, h, k, two_pow_suc v, two_pow_pos v)

-- A sum out of the signed range has a word of the other sign.
sge-low :
    (v : ℕ) (z : ℤ)
    → InRange z (signed_bounds (suc v))
    → z <ℤ negsuc (2 ^ v - 1)
    → compares sge (suc v) (wrap (suc v) z) 0 ≡ true
unfolding wrap
sge-low v (pos n) h low = absurd (omega (arith, low, two_pow_pos v))
sge-low v (negsuc n) h low =
    let fits : n % 2 ^ suc v ≡ n = mod-eq_of_lt (omega (arith, h, two_pow_suc v, two_pow_pos v)) in
    rw (fits, add-sub-one v) (ground (arith, h, low, two_pow_suc v, two_pow_pos v))

sge-high :
    (v : ℕ) (z : ℤ)
    → InRange z (signed_bounds (suc v))
    → pos (2 ^ v) ≤ℤ z
    → compares sge (suc v) (wrap (suc v) z) 0 ≡ false
unfolding wrap
sge-high v (pos n) h high =
    let fits : n % 2 ^ suc v ≡ n = mod-eq_of_lt (omega (arith, h, two_pow_suc v, two_pow_pos v)) in
    rw (fits, add-sub-one v) (ground (arith, h, high, two_pow_suc v, two_pow_pos v))
sge-high v (negsuc n) h high = absurd (omega (arith, high, two_pow_pos v))

module _ {m : Mlir} (laws : IsMlir m) where
  overflow_op-signed :
      (op : IntOperator) (v : ℕ) (a b : ℤ)
      → InRange a (signed_bounds v)
      → InRange b (signed_bounds v)
      → overflow_op m true op (suc v) (wrap (suc v) a) (wrap (suc v) b) ≡ (
        wrap (suc v) (exact op a b),
        not (leb_ℤ (negsuc (2 ^ v - 1)) (exact op a b) && ltb_ℤ (exact op a b) (pos (2 ^ v))),
      )
  overflow_op-signed overflowing_add v a b h k =
      laws.sadd_with_overflow_lem (suc v) _ _ (omega arith) (wrap-lt _ a) (wrap-lt _ b)
      ∙ rw (signed-wrap v a h.0 h.1, signed-wrap v b k.0 k.1, add-sub-one v)
  overflow_op-signed overflowing_sub v a b h k =
      laws.ssub_with_overflow_lem (suc v) _ _ (omega arith) (wrap-lt _ a) (wrap-lt _ b)
      ∙ rw (signed-wrap v a h.0 h.1, signed-wrap v b k.0 k.1, add-sub-one v)

  overflow_op-unsigned :
      (op : IntOperator) (w : ℕ) (x y : ℕ)
      → x < 2 ^ w
      → y < 2 ^ w
      → overflow_op m false op w x y ≡ unsigned_overflow w (exact op (pos x) (pos y))
  overflow_op-unsigned overflowing_add w x y h k = laws.uadd_with_overflow_lem w x y h k
  overflow_op-unsigned overflowing_sub w x y h k = laws.usub_with_overflow_lem w x y h k

  cmpi-zero : (w x : ℕ) → x < 2 ^ w → m.cmpi sge w x 0 ≡ compares sge w x 0
  cmpi-zero w x h = laws.cmpi_lem sge w x 0 h (two_pow_pos w)

counter_twice : (c : ℕ) → ((c + 1) % 2 ^ 64 + 1) % 2 ^ 64 ≡ (c + 2) % 2 ^ 64
counter_twice c = omega arith

if-not : (b : Bool) (j k : Jump) → (if not b then j else k) ≡ (if b then k else j)
if-not true j k = refl
if-not false j k = refl

pub negsuc_ne_zero : (n : ℕ) → eqb_ℤ (negsuc n) (pos 0) ≡ false
negsuc_ne_zero n = ground arith

pub leb_of_ltb : (a b : ℤ) → leb_ℤ a b ≡ not (ltb_ℤ b a)
leb_of_ltb a b = ground arith

ltb_below : (v : ℕ) (z : ℤ) → z <ℤ negsuc (2 ^ v - 1) → ltb_ℤ z (pos (2 ^ v)) ≡ true
ltb_below v z h = lt→ltb_ℤ z (pos (2 ^ v)) (omega (arith, h))

module _ {m : Mlir} (laws : IsMlir m) where
  -- The counter on the path without overflow.
  second_check :
      (r : Range) (c : ℕ)
      → c < 2 ^ 64
      → (if not (is_i128 r)
          then increment_builtin_counter_by m ((c + 1) % 2 ^ 64) 1
          else ok ((c + 1) % 2 ^ 64))
        ≡ ok (if is_i128 r then (c + 1) % 2 ^ 64 else (c + 2) % 2 ^ 64)
  second_check r c h =
      rw
        (
          increment_builtin_counter_by_lem laws ((c + 1) % 2 ^ 64) 1 (omega arith) (omega arith),
          counter_twice c,
        )
        (elim (Bool-cases (is_i128 r)) [ inl e ↦ rw e | inr e ↦ rw e ])

module _ {m : Mlir} (laws : IsMlir m) (t : CoreTypeConcrete) (v : ℕ)
    (range_eq : integer_range t ≡ ok (signed_bounds v)) (width_eq : integer_width t ≡ ok (suc v))
    (a b : ℤ) (a_in : InRange a (signed_bounds v)) (b_in : InRange b (signed_bounds v)) (c : ℕ)
    (c_lt : c < 2 ^ 64) where
  -- For a signed type of `v` + 1 bits, two integers of its range and a counter below 2 ^ 64,
  -- the code for an overflowing addition or subtraction jumps to branch 1 if the integer
  -- result is below the range, to branch 0 if it is in the range and to branch 2 if it is
  -- above, with the word of the result; the counter is moved on by one, and in branch 0 once
  -- more unless the type is `i128`, modulo 2 ^ 64.
  pub build_operation-signed :
      (op : IntOperator)
      → build_operation m t op c (wrap (suc v) a) (wrap (suc v) b)
        ≡ ok (
            if ltb_ℤ (exact op a b) (signed_bounds v).lower
            then (1, (c + 1) % 2 ^ 64 ∷ wrap (suc v) (exact op a b) ∷ [])
            else if ltb_ℤ (exact op a b) (signed_bounds v).upper
            then (
              0,
              (if is_i128 (signed_bounds v) then (c + 1) % 2 ^ 64 else (c + 2) % 2 ^ 64)
                  ∷ wrap (suc v) (exact op a b)
                  ∷ [],
            )
            else (2, (c + 1) % 2 ^ 64 ∷ wrap (suc v) (exact op a b) ∷ []))
  unfolding build_operation increment_builtin_counter
  build_operation-signed op =
      let z = exact op a b in
      let r = signed_bounds v in
      let z_in = exact-bounds op v a b a_in b_in in
      let wide = cmpi-zero laws (suc v) (wrap (suc v) z) (wrap-lt (suc v) z) in
      rw
        (
          increment_builtin_counter_by_lem laws c 1 c_lt (omega arith),
          range_eq,
          negsuc_ne_zero (2 ^ v - 1),
          width_eq,
          second_check laws r c c_lt,
          laws.const_int_pos (suc v) 0 (two_pow_pos (suc v)),
          overflow_op-signed laws op v a b a_in b_in,
          leb_of_ltb r.lower z,
        )
        (elim (Bool-cases (ltb_ℤ z r.lower)) [
          | inl low ↦ rw (low, wide ∙ sge-low v z z_in (ltb_ℤ→lt z r.lower low))
          | inr more ↦ elim (Bool-cases (ltb_ℤ z r.upper)) [
            | inl inside ↦ rw (more, inside)
            | inr high ↦ rw (more, high, wide ∙ sge-high v z z_in (ltb_ℤ→ge z r.upper high))
          ]
        ])

  -- For a signed type and two integers of its range, the code for the difference jumps to
  -- branch 0 if the first is not below the second and to branch 1 if it is, with the counter
  -- moved on by one modulo 2 ^ 64 and the difference modulo 2 ^ (`v` + 1).
  pub build_diff-signed :
      build_diff m t c (wrap (suc v) a) (wrap (suc v) b)
      ≡ ok (
          if leb_ℤ b a
          then (0, (c + 1) % 2 ^ 64 ∷ wrap (suc v) (a -ℤ b) ∷ [])
          else (1, (c + 1) % 2 ^ 64 ∷ wrap (suc v) (a -ℤ b) ∷ []))
  unfolding build_diff increment_builtin_counter
  build_diff-signed = rw (
    increment_builtin_counter_by_lem laws c 1 c_lt (omega arith),
    width_eq,
    laws.cmpi_lem sge (suc v) _ _ (wrap-lt _ a) (wrap-lt _ b),
    signed-wrap v a a_in.0 a_in.1,
    signed-wrap v b b_in.0 b_in.1,
    subi-wrap laws (suc v) a b,
  )

module _ {m : Mlir} (laws : IsMlir m) (t : CoreTypeConcrete) (w : ℕ)
    (range_eq : integer_range t ≡ ok (unsigned_bounds w)) (width_eq : integer_width t ≡ ok w)
    (x y : ℕ) (x_lt : x < 2 ^ w) (y_lt : y < 2 ^ w) (c : ℕ) (c_lt : c < 2 ^ 64) where
  -- For an unsigned type of `w` bits, two of its numbers and a counter below 2 ^ 64, the code
  -- for an overflowing addition or subtraction jumps to branch 0 if the integer result is in
  -- the range of the type and to branch 1 if it is not, with the counter moved on by one
  -- modulo 2 ^ 64 and the result modulo 2 ^ `w`.
  pub build_operation-unsigned :
      (op : IntOperator)
      → build_operation m t op c x y
        ≡ ok (
            if leb_ℤ (pos 0) (exact op (pos x) (pos y))
              && ltb_ℤ (exact op (pos x) (pos y)) (pos (2 ^ w))
            then (0, (c + 1) % 2 ^ 64 ∷ wrap w (exact op (pos x) (pos y)) ∷ [])
            else (1, (c + 1) % 2 ^ 64 ∷ wrap w (exact op (pos x) (pos y)) ∷ []))
  unfolding build_operation increment_builtin_counter
  build_operation-unsigned op =
      let z = exact op (pos x) (pos y) in
      rw
        (
          increment_builtin_counter_by_lem laws c 1 c_lt (omega arith),
          range_eq,
          width_eq,
          overflow_op-unsigned laws op w x y x_lt y_lt,
        )
        (ap ok (if-not (leb_ℤ (pos 0) z && ltb_ℤ z (pos (2 ^ w))) _ _))

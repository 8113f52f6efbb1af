-- ===== src/Libfuncs/Cast/Downcast.antt =====
-- A downcast between integer types tests whether the integer is in the target range, and changes
-- its representation if it is.
use cairo_native.Prelude.{
  ℕ, ◌^◌, ◌≡◌, ◌<◌, sym, refl, max, Bool, true, false, arith, Option, some, none, if◌then◌else◌,
  ◌&&◌, [], ◌∷◌,
}
use cairo_native.Prelude.Int.{ℤ, pos, ◌≤ℤ◌, ◌<ℤ◌, ltb_ℤ, leb_ℤ}
use cairo_native.Error.{ok, Result}
use cairo_native.Num.Wrap.{wrap}
use mathlib.Core.Path.{subst}
use cairo_native.Mlir.{Mlir, IsMlir, CmpiPredicate, slt, ult, sge, uge}
use cairo_native.Utils.RangeExt.{Range, size, repr_bit_width, zero_based_bit_width}
use cairo_native.Utils.RangeExt.Laws.{InRange}
use cairo_native.Types.{CoreTypeConcrete}
use cairo_native.Types.Integer.{integer_range}
use cairo_native.Libfuncs.Counter.{Jump, increment_builtin_counter_conditionally_by}
use cairo_native.Libfuncs.BoundedInt.Stored.{IsInteger, stored, typed-Shape}
use cairo_native.Libfuncs.BoundedInt.Branches.{le→leb_ℤ, lt→ltb_ℤ, ltb_ℤ→lt, ltb_ℤ→ge}
use cairo_native.Libfuncs.BoundedInt.Compare.{const_int-wrap, cmpi-wrap}
use cairo_native.Libfuncs.Cast.Build.{
  build_downcast, downcast_range, bound_check, count_checks, check_bounds,
}
use cairo_native.Libfuncs.Cast.Widths.{Holds, repr_bit_width-le_zero_based, InRange-Placed, cmpi-ge}
use cairo_native.Libfuncs.Cast.Upcast.{is_felt252-IsInteger}
use cairo_native.Libfuncs.Cast.Represent.{
  and_true, Counted, counted, correct_source-wrap, represent_target-stored,
}
use cairo_native.Libfuncs.Int.Felts.{few}
use cairo_native.Libfuncs.Int.Overflow.{leb_of_ltb}

-- The integers that both ranges hold: neither lies above the other.
abbrev pub Meet : Range → Range → Type 0
Meet r d = (d.lower <ℤ r.upper) × (r.lower <ℤ d.upper)

-- The test that the value is in the range.
abbrev pub contains : Range → ℤ → Bool
contains d a = leb_ℤ d.lower a && ltb_ℤ a d.upper

-- What the checks of a downcast give: the test, and the counter.
pub record Checked (x : Result (Bool × ℕ)) (inside : Bool) : Type 0 where
  pub counter : ℕ
  pub result_eq : x ≡ ok (inside, counter)
  pub counter_lt : counter < 2 ^ 64

leb_of : (a b : ℤ) → a ≤ℤ b → leb_ℤ a b ≡ true
leb_of a b h = le→leb_ℤ a b h

module _ {m : Mlir} (laws : IsMlir m) (r d : Range) (w : ℕ) (a : ℤ) (r_holds : Holds r w)
    (meet : Meet r d) (a_in : InRange a r) where
  -- A comparison that the source makes.
  lower_checked :
      ltb_ℤ r.lower d.lower ≡ true
      → bound_check m true (if ltb_ℤ r.lower (pos 0) then sge else uge) w (wrap w a) d.lower
        ≡ ok (some (leb_ℤ d.lower a))
  unfolding bound_check
  lower_checked e =
      let at =
        InRange-Placed r w d.lower r_holds (omega (arith, ltb_ℤ→lt r.lower d.lower e), meet.0) in
      rw (
        const_int-wrap laws w d.lower at,
        cmpi-ge laws w a d.lower (InRange-Placed r w a r_holds a_in) at,
      )

  upper_checked :
      ltb_ℤ d.upper r.upper ≡ true
      → bound_check m true (if ltb_ℤ r.lower (pos 0) then slt else ult) w (wrap w a) d.upper
        ≡ ok (some (ltb_ℤ a d.upper))
  unfolding bound_check
  upper_checked e =
      let at =
        InRange-Placed r w d.upper r_holds (omega (arith, meet), ltb_ℤ→lt d.upper r.upper e) in
      rw (
        const_int-wrap laws w d.upper at,
        cmpi-wrap laws w a d.upper (InRange-Placed r w a r_holds a_in) at,
      )

  skipped : (p : CmpiPredicate) (b : ℤ) → bound_check m false p w (wrap w a) b ≡ ok none
  unfolding bound_check
  skipped p b = refl

  count :
      (full : Bool) (lower upper : Option Bool) (inside : Bool) (c : ℕ)
      → c < 2 ^ 64
      → Counted (
          if full
          then increment_builtin_counter_conditionally_by m c
              (if ltb_ℤ (size d) (pos (2 ^ 128)) then 2 else 1)
              3
              inside
          else count_checks m lower upper c)
  count full lower upper inside c h =
      counted laws full lower upper _ inside c (few (ltb_ℤ (size d) (pos (2 ^ 128)))) h

  above : ltb_ℤ r.lower d.lower ≡ false → leb_ℤ d.lower a ≡ true
  above e = leb_of d.lower a (omega (arith, ltb_ℤ→ge r.lower d.lower e, a_in))

  below : ltb_ℤ d.upper r.upper ≡ false → ltb_ℤ a d.upper ≡ true
  below f = lt→ltb_ℤ a d.upper (omega (arith, ltb_ℤ→ge d.upper r.upper f, a_in))

  -- The four cases: which comparisons the source needs.
  cases :
      (full low high : Bool) (c : ℕ)
      → ltb_ℤ r.lower d.lower ≡ low
      → ltb_ℤ d.upper r.upper ≡ high
      → c < 2 ^ 64
      → Checked (check_bounds m full d r w c (wrap w a)) (contains d a)
  unfolding check_bounds
  cases full true true c e f h =
      let k = count full (some (leb_ℤ d.lower a)) (some (ltb_ℤ a d.upper)) (contains d a) c h in
      record {
        counter = k.value;
        result_eq =
            rw (leb_of_ltb d.lower r.lower, e, lower_checked e, f, upper_checked f, k.value_eq);
        counter_lt = k.value_lt;
      }
  cases full true false c e f h =
      let k = count full (some (leb_ℤ d.lower a)) none (leb_ℤ d.lower a) c h in
      let inside : contains d a ≡ leb_ℤ d.lower a = rw (below f) (and_true (leb_ℤ d.lower a)) in
      subst (Checked _) (sym inside) record {
        counter = k.value;
        result_eq = rw (
          leb_of_ltb d.lower r.lower,
          e,
          lower_checked e,
          f,
          skipped (if ltb_ℤ r.lower (pos 0) then slt else ult) d.upper,
          k.value_eq,
        );
        counter_lt = k.value_lt;
      }
  cases full false true c e f h =
      let k = count full none (some (ltb_ℤ a d.upper)) (ltb_ℤ a d.upper) c h in
      let inside : contains d a ≡ ltb_ℤ a d.upper = rw (above e) in
      subst (Checked _) (sym inside) record {
        counter = k.value;
        result_eq = rw (
          leb_of_ltb d.lower r.lower,
          e,
          leb_of_ltb r.upper d.upper,
          f,
          skipped (if ltb_ℤ r.lower (pos 0) then sge else uge) d.lower,
          upper_checked f,
          k.value_eq,
        );
        counter_lt = k.value_lt;
      }
  cases full false false c e f h = record {
    counter = c;
    result_eq = rw (
      leb_of_ltb d.lower r.lower,
      e,
      leb_of_ltb r.upper d.upper,
      f,
      laws.const_int_pos 1 1 (omega arith),
      above e,
      below f,
    );
    counter_lt = h;
  }

  check_bounds-Checked :
      (full : Bool) (c : ℕ)
      → c < 2 ^ 64
      → Checked (check_bounds m full d r w c (wrap w a)) (contains d a)
  check_bounds-Checked full c h =
      cases full (ltb_ℤ r.lower d.lower) (ltb_ℤ d.upper r.upper) c refl refl h

downcast_range-IsInteger :
    (t : CoreTypeConcrete) (d : Range) → IsInteger t → downcast_range t d ≡ integer_range t
unfolding downcast_range
downcast_range-IsInteger t d h = rw (is_felt252-IsInteger t h)

-- The jump of a downcast: the test says which branch is taken, the counter goes on in both.
pub record Downcasted (x : Result Jump) (inside : Bool) (pattern : ℕ) : Type 0 where
  pub counter : ℕ
  pub jump_eq : x ≡ ok (if inside then (0, counter ∷ pattern ∷ []) else (1, counter ∷ []))
  pub counter_lt : counter < 2 ^ 64

module _ {m : Mlir} (laws : IsMlir m) (src dst : CoreTypeConcrete) {r d : Range} (a : ℤ)
    (src_int : IsInteger src) (dst_int : IsInteger dst) (r_eq : integer_range src ≡ ok r)
    (d_eq : integer_range dst ≡ ok d) (meet : Meet r d) (not_empty : d.lower <ℤ d.upper)
    (a_in : InRange a r) where
  pub build_downcast-Downcasted :
      (full : Bool) (c : ℕ)
      → c < 2 ^ 64
      → Downcasted
          (build_downcast m false full d src dst c (stored src r a))
          (contains d a)
          (stored dst d a)
  unfolding build_downcast
  build_downcast-Downcasted full c h =
      let w = max (zero_based_bit_width r) (zero_based_bit_width d) in
      let r_holds : Holds r w = record {
        not_empty = omega (arith, a_in);
        width_le = omega arith;
      } in
      let d_holds : Holds d w = record { not_empty = not_empty; width_le = omega arith } in
      let le = repr_bit_width-le_zero_based r r_holds.not_empty in
      let width : max (repr_bit_width r) w ≡ w = omega (arith, le) in
      let k = check_bounds-Checked laws r d w a r_holds meet a_in full c h in
      record {
        counter = k.counter;
        jump_eq = rw (
          d_eq,
          downcast_range-IsInteger src d src_int,
          r_eq,
          width,
          correct_source-wrap laws src r w a src_int (typed-Shape src src_int r_eq) r_holds a_in,
          k.result_eq,
          represent_target-stored laws dst d w a dst_int (typed-Shape dst dst_int d_eq) r d_holds,
        );
        counter_lt = k.counter_lt;
      }

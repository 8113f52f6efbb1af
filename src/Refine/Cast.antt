-- ===== src/Refine/Cast.antt =====
-- The casts of the interpreter and those of the compiled code agree on integers.
use cairo_native.Prelude.{
  ℕ, ◌^◌, ◌<◌, ◌≡◌, ◌==◌, refl, ◌∙◌, arith, Bool, true, false, [], ◌∷◌, Bool-cases, inl, inr,
  if◌then◌else◌,
}
use cairo_native.Prelude.Int.{ℤ, ◌<ℤ◌}
use cairo_native.Error.{ok}
use cairo_native.Mlir.{Mlir, IsMlir}
use cairo_native.Utils.RangeExt.{Range}
use cairo_native.Utils.RangeExt.Laws.{InRange}
use cairo_native.Types.{CoreTypeConcrete, range_check}
use cairo_native.Types.Integer.{integer_range}
use cairo_native.Libfuncs.BoundedInt.Stored.{IsInteger, stored}
use cairo_native.Libfuncs.BoundedInt.Products.{Within}
use cairo_native.Libfuncs.Cast.Build.{build_downcast, build_upcast}
use cairo_native.Libfuncs.Cast.Upcast.{build_upcast-stored}
use cairo_native.Libfuncs.Cast.Downcast.{Meet, contains, build_downcast-Downcasted}
use cairo_native.Emu.Value.{Value, unit}
use cairo_native.Emu.Cast.{eval_downcast, eval_upcast}
use cairo_native.Refine.Encodes.{Encodes, Agree, agree, integer, counter, Encodes-Number}
use cairo_native.Refine.Remade.{get_value_from_integer-Remade}

contains-InRange : (d : Range) (a : ℤ) → contains d a ≡ true → InRange a d
contains-InRange d a h = (ground (arith, h), ground (arith, h))

module _ {m : Mlir} (laws : IsMlir m) (src dst : CoreTypeConcrete) {r d : Range}
    (dst_int : IsInteger dst) (src_eq : integer_range src ≡ ok r)
    (dst_eq : integer_range dst ≡ ok d) {v : Value} {p : ℕ} (encoded : Encodes src v p) where
  -- For two different integer types, the range of the first inside that of the second, the upcast of the
  -- interpreter and the code for it agree: both give the integer in the second type, and the
  -- assertion of the compiler holds.
  pub upcast-Agree :
      Within r d → Agree (λ i. dst ∷ []) (eval_upcast dst (v ∷ [])) (build_upcast m false src dst p)
  unfolding eval_upcast
  upcast-Agree inside =
      let n = Encodes-Number src src_eq encoded in
      let a_in : InRange n.value d =
        (omega (arith, n.in_range, inside), omega (arith, n.in_range, inside)) in
      let x = get_value_from_integer-Remade dst n.value dst_int dst_eq a_in in
      agree 0 (x.value ∷ []) (stored dst d n.value ∷ []) (rw (n.numeric, x.value_eq))
        (rw (n.pattern_eq) (
          build_upcast-stored laws src dst n.value n.is_integer dst_int src_eq dst_eq inside
            n.in_range))
        (integer d n.value dst_int dst_eq x.numeric a_in refl, tt)

  -- For two different integer types whose ranges meet, the second not empty, any integer of the
  -- first and a counter below 2 ^ 64, the downcast of the interpreter to the second type and the
  -- code for it agree: they take branch 0 with the integer in the second type where its range has
  -- it and branch 1 where it has not, whichever comparisons the code needs, with a new counter
  -- below 2 ^ 64.
  pub downcast-Agree :
      Meet r d
      → d.lower <ℤ d.upper
      → (full : Bool) (c : ℕ) → c < 2 ^ 64
      → Agree
          (λ i. if i == 0 then range_check ∷ dst ∷ [] else range_check ∷ [])
          (eval_downcast d dst (unit ∷ v ∷ []))
          (build_downcast m false full d src dst c p)
  unfolding eval_downcast
  downcast-Agree meet not_empty full c h =
      let n = Encodes-Number src src_eq encoded in
      let j =
        build_downcast-Downcasted laws src dst n.value n.is_integer dst_int src_eq dst_eq meet
          not_empty n.in_range full c h in
      elim (Bool-cases (contains d n.value)) [
        | inl inside ↦
            let a_in : InRange n.value d = contains-InRange d n.value inside in
            let x = get_value_from_integer-Remade dst n.value dst_int dst_eq a_in in
            agree 0 (unit ∷ x.value ∷ []) (j.counter ∷ stored dst d n.value ∷ [])
              (rw (n.numeric, inside, x.value_eq)) (rw n.pattern_eq (j.jump_eq ∙ rw inside))
              (
                counter refl refl j.counter_lt,
                (integer d n.value dst_int dst_eq x.numeric a_in refl, tt),
              )
        | inr outside ↦
            agree 1 (unit ∷ []) (j.counter ∷ []) (rw (n.numeric, outside))
              (rw n.pattern_eq (j.jump_eq ∙ rw outside)) (counter refl refl j.counter_lt, tt)
      ]

-- ===== src/Types/Layout/Zst.antt =====
-- A type without size has the layout of the unit type, and its values do not stay in memory.
use cairo_native.Prelude.{
  ◌≡◌, ◌≢◌, refl, Bool, true, false, some, Bool-cases, inl, inr, if◌then◌else◌,
}
use mathlib.Core.Bool.{false≢true}
use cairo_native.Error.{Result, ok, err, Error, ◌>>=◌}
use cairo_native.Num.Bits.{bits}
use cairo_native.Types.Layout.Defs.{unit_layout, get_integer_layout, from_size_align, extend}
use cairo_native.Types.Layout.Types.{
  layout, raw_layout, circuit_layout, circuit_is_zst, members_layout,
}
use cairo_native.Types.Layout.Flags.{
  is_zst, members_is_zst, is_memory_allocated, members_is_memory_allocated,
}
use cairo_native.Types.Defs.{
  CircuitTypeConcrete, CoreTypeConcrete, TypeList, nil, cons, add_mod_gate, sub_mod_gate,
  mul_mod_gate, inverse_gate, circuit_input, circuit_descriptor, circuit_type,
  uint128_mul_guarantee, coupon, circuit, span, int_range, non_zero, uninitialized, snapshot,
  const_type, struct_type, enum_type,
}

sized : ok false ≢ ok true
sized h = cc

failed : (e : Error) → Result.err e ≢ ok true
failed e h = cc

-- The first member has no size, nor have the others.
both_zst :
    (first others : Result Bool)
    → (first >>= (λ b. if b then others else ok false)) ≡ ok true
    → (first ≡ ok true) × (others ≡ ok true)
both_zst (ok true) others h = (refl, h)
both_zst (ok false) others h = absurd (sized h)
both_zst (err e) others h = absurd (failed e h)

circuit_zst :
    (info : CircuitTypeConcrete)
    → ok (circuit_is_zst info) ≡ ok true
    → circuit_layout info ≡ ok unit_layout
circuit_zst add_mod_gate h = refl
circuit_zst sub_mod_gate h = refl
circuit_zst mul_mod_gate h = refl
circuit_zst circuit_input h = refl
circuit_zst inverse_gate h = refl
circuit_zst circuit_type h = refl
circuit_zst circuit_descriptor h = refl
circuit_zst _ h = absurd (sized h)

mutual
  unfolding raw_layout is_zst extend from_size_align get_integer_layout bits

  zst_layout : (t : CoreTypeConcrete) → is_zst t ≡ ok true → raw_layout t ≡ ok unit_layout
  zst_layout uint128_mul_guarantee h = refl
  zst_layout coupon h = refl
  zst_layout (non_zero t) h = rw (zst_layout t h)
  zst_layout (uninitialized t) h = rw (zst_layout t h)
  zst_layout (snapshot t) h = rw (zst_layout t h)
  zst_layout (const_type t) h = rw (zst_layout t h)
  zst_layout (int_range t) h = rw (zst_layout t h)
  zst_layout (enum_type nil) h = refl
  zst_layout (enum_type (cons t nil)) h = rw (zst_layout t h)
  zst_layout (enum_type (cons t (cons u us))) h = absurd (sized h)
  zst_layout (struct_type nil) h = refl
  zst_layout (struct_type (cons t ts)) h =
      let (first, others) = both_zst (is_zst t) (members_is_zst ts) h in
      rw (zst_layout t first, zst_members ts others)
  zst_layout (circuit info) h = circuit_zst info h
  zst_layout (span t) h = absurd (failed _ h)
  zst_layout _ h = absurd (sized h)

  zst_members :
      (ts : TypeList)
      → members_is_zst ts ≡ ok true
      → members_layout (some unit_layout) ts ≡ ok (some unit_layout)
  zst_members nil h = refl
  zst_members (cons t ts) h =
      let (first, others) = both_zst (is_zst t) (members_is_zst ts) h in
      rw (zst_layout t first, zst_members ts others)

-- A type that is said to have no size has a layout, which is the one of the unit type: no bytes,
-- without alignment.
pub is_zst-layout : (t : CoreTypeConcrete) → is_zst t ≡ ok true → layout t ≡ ok unit_layout
unfolding layout
is_zst-layout t h = rw (zst_layout t h)

mutual
  unfolding is_zst is_memory_allocated

  allocated : (t : CoreTypeConcrete) → is_memory_allocated t ≡ true → is_zst t ≢ ok true
  allocated (snapshot t) h z = allocated t h z
  allocated (const_type t) h z = allocated t h z
  allocated (enum_type nil) h z = absurd (false≢true h)
  allocated (enum_type (cons t nil)) h z = allocated t h z
  allocated (enum_type (cons t (cons u us))) h z = sized z
  allocated (struct_type ts) h z = allocated_members ts h z
  allocated _ h z = false≢true h

  allocated_members :
      (ts : TypeList) → members_is_memory_allocated ts ≡ true → members_is_zst ts ≢ ok true
  allocated_members nil h z = false≢true h
  allocated_members (cons t ts) h z =
      let (first, others) = both_zst (is_zst t) (members_is_zst ts) z in
      elim (Bool-cases (is_memory_allocated t)) [
        | inl e ↦ allocated t e first
        | inr e ↦ allocated_members ts (rw e at h) others
      ]

-- The values of a type that are kept in memory have a size.
is_memory_allocated-is_zst :
    (t : CoreTypeConcrete) → is_memory_allocated t ≡ true → is_zst t ≢ ok true
is_memory_allocated-is_zst t h = allocated t h

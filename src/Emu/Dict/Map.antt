-- ===== src/Emu/Dict/Map.antt =====
-- The dictionary as a map with a default: what an access reads after a write.
use cairo_native.Prelude.{
  ℕ, ◌+◌, ◌^◌, ◌≡◌, ◌<◌, refl, arith, Bool, true, ◌==◌, lt→ltb, ==→eq, if◌then◌else◌, Option, none,
  some, [], ◌∷◌, Bool-cases, Option-cases, inl, inr,
}
use cairo_native.Types.{CoreTypeConcrete}
use cairo_native.Emu.Panic.{◌>>=◌}
use cairo_native.Emu.Value.{Value, EntryList, no_entry, entry, EvalAction, normal_branch}
use cairo_native.Emu.Is.{is}
use cairo_native.Emu.Dict.{get, insert, default_for_type, eval_entry_get, eval_entry_finalize}

pub get-insert :
    (xs : EntryList) (k : ℕ) (v : Value) (key : ℕ)
    → get (insert xs k v) key ≡ (if k == key then some v else get xs key)
unfolding get insert
get-insert no_entry k v key = refl
get-insert (entry j w es) k v key = elim (Bool-cases (j == k)) [
  | inl e ↦ rw e (ground (arith, ==→eq j k e))
  | inr e ↦ rw (e, get-insert es k v key) (ground (arith, e))
]

-- What the map holds, with the default of the type.
abbrev pub or_default : Value → Option Value → Value
or_default default none = default
or_default default (some v) = v

abbrev pub only : EvalAction → Option Value
only (normal_branch i (v ∷ [])) = some v
only _ = none

abbrev pub second : EvalAction → Option Value
second (normal_branch i (u ∷ v ∷ [])) = some v
second _ = none

-- A value is written to a key, and then a key is read.
abbrev pub write_read :
    (CoreTypeConcrete → CoreTypeConcrete → Bool)
    → CoreTypeConcrete
    → Value
    → Value
    → ℕ
    → Option Value
write_read same ty opened value key = do
  written ← eval_entry_finalize same ty (opened ∷ value ∷ [])
  dict ← only written
  accessed ← eval_entry_get same ty (dict ∷ Value.felt key ∷ [])
  second accessed

module _ (same : CoreTypeConcrete → CoreTypeConcrete → Bool)
    (same_refl : (t : CoreTypeConcrete) → same t t ≡ true) (ty : CoreTypeConcrete) {default : Value}
    (default_eq : default_for_type ty ≡ some default) where
  -- For a type with a default, an open entry of a dictionary with fewer than 2 ^ 64 - 1 accesses
  -- and a value of the type, an access after the value is written to the entry's key reads the
  -- value at that key, and at any other key what was there before, or the default of the type.
  pub finalize-get :
      (xs : EntryList) (count k : ℕ) (value : Value) (key : ℕ)
      → is same value ty ≡ true
      → count + 1 < 2 ^ 64
      → write_read same ty (Value.felt_dict_entry ty xs count k) value key
        ≡ some (if k == key then value else or_default default (get xs key))
  unfolding eval_entry_finalize eval_entry_get
  finalize-get xs count k value key typed room =
      rw
        (
          same_refl ty,
          typed,
          same_refl ty,
          default_eq,
          lt→ltb (count + 1) (2 ^ 64) room,
          get-insert xs k value key,
        )
        (elim (Bool-cases (k == key)) [
          | inl e ↦ rw e
          | inr e ↦ rw e (elim (Option-cases (get xs key)) [ inl f ↦ rw f | inr f ↦ rw (f.1) ])
        ])

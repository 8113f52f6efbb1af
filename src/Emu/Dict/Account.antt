-- ===== src/Emu/Dict/Account.antt =====
-- How often a dictionary has been accessed, against its keys: the refund of `squash` counts the
-- accesses to keys that were there already.
use cairo_native.Prelude.{
  ℕ, suc, ◌+◌, ◌^◌, ◌≡◌, ◌≢◌, ◌≤◌, refl, ap, ◌∙◌, arith, Bool, true, false, ◌==◌, ltb, Option, none,
  some, List, [], ◌∷◌, Bool-cases, Option-cases, inl, inr,
}
use cairo_native.Prelude.{eq→==}
use mathlib.Core.Path.{subst}
use cairo_native.Types.{CoreTypeConcrete}
use cairo_native.Emu.Panic.{◌>>=◌, ◌>>◌, assert}
use cairo_native.Emu.Value.{Value, EntryList, no_entry, entry, EvalAction, normal_branch, unit}
use cairo_native.Emu.Is.{is}
use cairo_native.Emu.Dict.{
  length, get, insert, default_for_type, eval_dict_new, eval_entry_get, eval_entry_finalize,
}
use cairo_native.Emu.Dict.Map.{get-insert}

-- A key that is there keeps its place.
length-insert :
    (xs : EntryList) (k : ℕ) (v w : Value) → get xs k ≡ some w → length (insert xs k v) ≡ length xs
unfolding length get insert
length-insert no_entry k v w h = absurd (none_some h)
  where
    none_some : none ≢ some w
    none_some e = cc
length-insert (entry j u es) k v w h = elim (Bool-cases (j == k)) [
  | inl e ↦ rw e
  | inr e ↦ rw e (ap suc (length-insert es k v w (rw e at h)))
]

-- A new key stands for one more entry.
length-insert-new : (xs : EntryList) (k : ℕ) (v : Value) → length (insert xs k v) ≤ suc (length xs)
unfolding length insert
length-insert-new no_entry k v = omega arith
length-insert-new (entry j u es) k v =
    let rest = length-insert-new es k v in
    elim (Bool-cases (j == k)) [ inl e ↦ rw e (omega arith) | inr e ↦ rw e (omega (arith, rest)) ]

-- No more keys than accesses, and the key of an open entry is there.
pub record OpenEntry (xs : EntryList) (count key : ℕ) : Type 0 where
  pub keys_le : length xs ≤ count
  pub present : Value
  pub present_eq : get xs key ≡ some present

abbrev pub Accounted : Value → Type 0
Accounted (Value.felt_dict ty xs count) = length xs ≤ count
Accounted (Value.felt_dict_entry ty xs count key) = OpenEntry xs count key
Accounted _ = Unit

-- The first result of a handler, if it gives one.
abbrev First : (Value → Type 0) → Option EvalAction → Type 0
First P (some (normal_branch i (v ∷ vs))) = P v
First P _ = Unit

assert-First :
    (P : Value → Type 0) (b : Bool) (x : Option EvalAction)
    → (b ≡ true → First P x)
    → First P (assert b >> x)
assert-First P true x h = h refl
assert-First P false x h = tt

then-First {ℓ} :
    {A : Type ℓ} (P : Value → Type 0) (x : Option A) (f : A → Option EvalAction)
    → ((a : A) → First P (f a))
    → First P (x >>= f)
then-First P (some a) f h = h a
then-First P none f h = tt

first_result :
    (P : Value → Type 0) {x : Option EvalAction} {i : ℕ} {v : Value} {vs : List Value}
    → First P x
    → x ≡ some (normal_branch i (v ∷ vs))
    → P v
first_result P h e = subst (First P) e h

second_result :
    {i : ℕ} {u v w : Value}
    → some (normal_branch i (u ∷ v ∷ [])) ≡ some (normal_branch i (u ∷ w ∷ []))
    → v ≡ w
second_result e = cc

not_some : {a : EvalAction} → none ≢ some a
not_some h = cc

module _ (same : CoreTypeConcrete → CoreTypeConcrete → Bool) where
  -- The dictionaries and the open entries that the handlers make.
  pub data Reached : Value → Type 0 where
    created :
        (dict_ty : CoreTypeConcrete) (d : Value)
        → eval_dict_new dict_ty (unit ∷ []) ≡ some (normal_branch 0 (unit ∷ d ∷ []))
        → Reached d
    accessed :
        (info_ty : CoreTypeConcrete) (d e value : Value) (key : ℕ)
        → Reached d
        → eval_entry_get same info_ty (d ∷ Value.felt key ∷ [])
          ≡ some (normal_branch 0 (e ∷ value ∷ []))
        → Reached e
    finalized :
        (info_ty : CoreTypeConcrete) (e d value : Value)
        → Reached e
        → eval_entry_finalize same info_ty (e ∷ value ∷ []) ≡ some (normal_branch 0 (d ∷ []))
        → Reached d

  get-First :
      (info_ty : CoreTypeConcrete) (d : Value) (key : ℕ)
      → Accounted d
      → First Accounted (eval_entry_get same info_ty (d ∷ Value.felt key ∷ []))
  unfolding eval_entry_get
  get-First info_ty (Value.felt_dict ty xs count) key h =
      assert-First Accounted (same info_ty ty) _ (λ _.
        then-First Accounted (default_for_type ty) _ (λ default.
          assert-First Accounted (ltb (count + 1) (2 ^ 64)) _ (λ _.
            elim (Option-cases (get xs key)) [
              | inl e ↦ rw e (record {
                keys_le = omega (arith, h, length-insert-new xs key default);
                present = default;
                present_eq = get-insert xs key default key ∙ rw (eq→== key key refl);
              })
              | inr e ↦
                  rw (e.1) (record { keys_le = omega (arith, h); present = e.0; present_eq = e.1 })
            ])))
  get-First info_ty _ key h = tt

  finalize-First :
      (info_ty : CoreTypeConcrete) (e value : Value)
      → Accounted e
      → First Accounted (eval_entry_finalize same info_ty (e ∷ value ∷ []))
  unfolding eval_entry_finalize
  finalize-First info_ty (Value.felt_dict_entry ty xs count key) value h =
      assert-First Accounted (same info_ty ty) _ (λ _.
        assert-First Accounted (is same value ty) _
          (λ _. rw (length-insert xs key value h.present h.present_eq) h.keys_le))
  finalize-First info_ty _ value h = tt

  new-Accounted :
      (dict_ty : CoreTypeConcrete) (d : Value)
      → eval_dict_new dict_ty (unit ∷ []) ≡ some (normal_branch 0 (unit ∷ d ∷ []))
      → Accounted d
  unfolding eval_dict_new length
  new-Accounted (CoreTypeConcrete.felt252_dict t) d h =
      subst Accounted (second_result h) (omega arith)
  new-Accounted _ d h = absurd (not_some h)

  -- In every dictionary and open entry that the handlers make, starting from a new dictionary, with
  -- any accesses and any values written, there are at most as many keys as accesses, and an open
  -- entry's key is in its map: the subtraction for the refund of `squash` never falls below zero.
  pub Reached-Accounted : (v : Value) → Reached v → Accounted v
  Reached-Accounted v (created dict_ty d h) = new-Accounted dict_ty v h
  Reached-Accounted v (accessed info_ty d e value key reached h) =
      first_result Accounted (get-First info_ty d key (Reached-Accounted d reached)) h
  Reached-Accounted v (finalized info_ty e d value reached h) =
      first_result Accounted (finalize-First info_ty e value (Reached-Accounted e reached)) h

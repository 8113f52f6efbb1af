-- ===== src/Emu/Array/Laws.antt =====
-- How the library functions on arrays go together: slices and their items, appending and popping.
use cairo_native.Prelude.{
  ℕ, suc, ◌+◌, ◌-◌, ◌%◌, ◌^◌, ◌≡◌, ◌≤◌, ◌<◌, ◌∙◌, arith, Bool, true, le→leb, Option, none, some,
  List, [], ◌∷◌,
}
use cairo_native.Types.{CoreTypeConcrete}
use cairo_native.Emu.Panic.{◌>>=◌, ◌>>◌, assert}
use cairo_native.Emu.Value.{
  Value, ValueList, nil, cons, EvalAction, normal_branch, function_call, unit,
}
use cairo_native.Emu.Is.{is}
use cairo_native.Emu.Items.{
  length, get_elem?, push, take, drop, length-push, get_elem?-push, take-push, get_elem?-take,
  get_elem?-drop,
}
use cairo_native.Emu.Array.{eval_get, eval_slice, eval_append, eval_snapshot_pop_back}

-- The results of a branch.
abbrev pub results : EvalAction → List Value
results (normal_branch i vs) = vs
results (function_call f vs) = vs

abbrev pub nth : List Value → ℕ → Option Value
nth [] n = none
nth (v ∷ vs) ℕ.zero = some v
nth (v ∷ vs) (suc n) = nth vs n

-- An item of a slice of an array.
abbrev pub slice_get : CoreTypeConcrete → ValueList → (start len index : ℕ) → Option EvalAction
slice_get ty xs start len index = do
  sliced ← eval_slice (unit ∷ Value.array ty xs ∷ Value.u32 start ∷ Value.u32 len ∷ [])
  slice ← nth (results sliced) 1
  eval_get (unit ∷ slice ∷ Value.u32 index ∷ [])

-- For a slice within an array of fewer than 2 ^ 32 items and an index below its length, the item of
-- the slice at the index is the item of the array at the start plus the index.
pub slice-get :
    (ty : CoreTypeConcrete) (xs : ValueList) (start len index : ℕ)
    → start + len ≤ length xs
    → length xs < 2 ^ 32
    → index < len
    → slice_get ty xs start len index
      ≡ eval_get (unit ∷ Value.array ty xs ∷ Value.u32 (start + index) ∷ [])
unfolding eval_slice eval_get
slice-get ty xs start len index h k i =
    let end : (start + len) % 2 ^ 32 ≡ start + len = omega (arith, h, k) in
    let count : start + len - start ≡ len = omega arith in
    rw (
      end,
      le→leb start (start + len) (omega arith),
      le→leb (start + len) (length xs) h,
      count,
      get_elem?-take len (drop start xs) index i,
      get_elem?-drop start xs index,
    )

module _ (same : CoreTypeConcrete → CoreTypeConcrete → Bool)
    (same_refl : (t : CoreTypeConcrete) → same t t ≡ true) where
  popped :
      (ty : CoreTypeConcrete) (zs : ValueList) (n : ℕ)
      → length zs ≡ suc n
      → eval_snapshot_pop_back same ty (Value.array ty zs ∷ []) ≡ (do
        value ← get_elem? zs n
        assert (is same value ty)
        some (normal_branch 0 (Value.array ty (take n zs) ∷ value ∷ [])))
  unfolding eval_snapshot_pop_back length
  popped ty nil n h = absurd (omega (arith, h))
  popped ty (cons z zs) n h =
      let e : length zs ≡ n = omega (arith, h) in
      let last : suc n - 1 ≡ n = omega arith in rw (e, last)

  -- For an item of the array's type, to append it and then to pop the back of the array's snapshot
  -- gives the array as it was and the item.
  append-pop_back :
      (ty : CoreTypeConcrete) (xs : ValueList) (item : Value)
      → is same item ty ≡ true
      → (do
        appended ← eval_append same ty (Value.array ty xs ∷ item ∷ [])
        eval_snapshot_pop_back same ty (results appended))
        ≡ some (normal_branch 0 (Value.array ty xs ∷ item ∷ []))
  unfolding eval_append
  append-pop_back ty xs item typed =
      rw (same_refl ty, typed)
        (popped ty (push xs item) (length xs) (length-push xs item)
          ∙ rw (get_elem?-push xs item, typed, take-push xs item))

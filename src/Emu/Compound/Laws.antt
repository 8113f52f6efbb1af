-- ===== src/Emu/Compound/Laws.antt =====
-- What is put into an enumeration or a structure comes out again.
use cairo_native.Prelude.{ℕ, ◌≡◌, refl, ap, Bool, true, eq→==, lt→ltb, ◌<◌, some, List, [], ◌∷◌}
use cairo_native.Types.{CoreTypeConcrete, TypeList, enum_type, struct_type}
use cairo_native.Emu.Panic.{◌>>=◌}
use cairo_native.Emu.Value.{Value, EvalAction, normal_branch, function_call}
use cairo_native.Emu.Is.{is, all_are}
use cairo_native.Emu.Compound.{
  eval_init, eval_match, eval_construct, eval_deconstruct, type_at, type_count, to_list, of_list,
}

abbrev pub handed : EvalAction → List Value
handed (normal_branch i vs) = vs
handed (function_call f vs) = vs

to_list-of_list : (vs : List Value) → to_list (of_list vs) ≡ vs
to_list-of_list [] = refl
to_list-of_list (v ∷ vs) = ap (◌∷◌ v) (to_list-of_list vs)

module _ (same : CoreTypeConcrete → CoreTypeConcrete → Bool)
    (same_refl : (t : CoreTypeConcrete) → same t t ≡ true) where
  -- A value of the type of a variant, put into the enumeration at the variant's index, is handed by
  -- the match on the enumeration to the branch of that index.
  init-match :
      (variants : TypeList) (index : ℕ) (variant : CoreTypeConcrete) (value : Value)
      → type_at variants index ≡ some variant
      → index < type_count variants
      → is same value variant ≡ true
      → (do
        made ← eval_init same (enum_type variants) index (type_count variants) (value ∷ [])
        eval_match same (enum_type variants) variants (handed made))
        ≡ some (normal_branch index (value ∷ []))
  unfolding eval_init eval_match
  init-match variants index variant value at_index below typed = rw (
    eq→== (type_count variants) (type_count variants) refl,
    lt→ltb index (type_count variants) below,
    at_index,
    typed,
    same_refl (enum_type variants),
    at_index,
    typed,
  )

  -- A structure made of values of its members' types is taken apart into the same values.
  construct-deconstruct :
      (members : TypeList) (args : List Value)
      → all_are same (of_list args) members ≡ true
      → (do
        made ← eval_construct same (struct_type members) args
        eval_deconstruct same (struct_type members) (handed made))
        ≡ some (normal_branch 0 args)
  unfolding eval_construct eval_deconstruct
  construct-deconstruct members args typed =
      rw (typed, typed) (ap (λ vs. some (normal_branch 0 vs)) (to_list-of_list args))

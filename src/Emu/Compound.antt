-- ===== src/Emu/Compound.antt =====
-- debug_utils/sierra-emu/src/vm/enum.rs, struct.rs and nullable.rs. A handler takes the types of its
-- signature that it reads, then its arguments; `branch_types` are those of the branches' results.
pub mod Laws
mod Examples
use cairo_native.Prelude.{
  ℕ, zero, suc, Bool, ◌==◌, ltb, if◌then◌else◌, Option, none, some, List, [], ◌∷◌,
}
use cairo_native.Prelude.Int.{ℤ, pos, negsuc}
use cairo_native.Types.{CoreTypeConcrete, TypeList}
use cairo_native.Emu.Panic.{◌>>=◌, ◌>>◌, assert}
use cairo_native.Emu.Value.{
  Value, ValueList, nil, cons, EvalAction, normal_branch, unit, null, struct_value, enum_value,
}
use cairo_native.Emu.Is.{is, all_are}

-- The types of the variants of an enumeration, and of the members of a structure.
abbrev pub variants_of : CoreTypeConcrete → Option TypeList
variants_of (CoreTypeConcrete.enum_type ts) = some ts
variants_of _ = none

abbrev pub members_of : CoreTypeConcrete → Option TypeList
members_of (CoreTypeConcrete.struct_type ts) = some ts
members_of _ = none

abbrev pub snapshot_of : CoreTypeConcrete → Option CoreTypeConcrete
snapshot_of (CoreTypeConcrete.snapshot t) = some t
snapshot_of _ = none

unfoldable pub type_at : TypeList → ℕ → Option CoreTypeConcrete
type_at TypeList.nil n = none
type_at (TypeList.cons t ts) zero = some t
type_at (TypeList.cons t ts) (suc n) = type_at ts n

unfoldable pub type_count : TypeList → ℕ
type_count TypeList.nil = 0
type_count (TypeList.cons t ts) = suc (type_count ts)

abbrev pub to_list : ValueList → List Value
to_list nil = []
to_list (cons v vs) = v ∷ to_list vs

abbrev pub of_list : List Value → ValueList
of_list [] = nil
of_list (v ∷ vs) = cons v (of_list vs)

-- The index of a variant, as an `usize`.
abbrev pub to_usize : ℤ → Option ℕ
to_usize (pos n) = if ltb n 18446744073709551616 then some n else none
to_usize (negsuc n) = none

unfoldable pub eval_from_bounded_int : CoreTypeConcrete → List Value → Option EvalAction
eval_from_bounded_int enum_ty (Value.bounded_int range value ∷ []) = do
  index ← to_usize value
  some (normal_branch 0 (enum_value enum_ty index (struct_value nil) ∷ []))
eval_from_bounded_int enum_ty _ = none

unfoldable pub eval_null : List Value → Option EvalAction
eval_null [] = some (normal_branch 0 (null ∷ []))
eval_null _ = none

unfoldable pub eval_match_nullable : List Value → Option EvalAction
eval_match_nullable (null ∷ []) = some (normal_branch 0 [])
eval_match_nullable (value ∷ []) = some (normal_branch 1 (value ∷ []))
eval_match_nullable _ = none

module _ (same : CoreTypeConcrete → CoreTypeConcrete → Bool) where
  unfoldable pub eval_init :
      (self_ty : CoreTypeConcrete) → (index n_variants : ℕ) → List Value → Option EvalAction
  unfolding is type_at type_count
  eval_init self_ty index n_variants (value ∷ []) = do
    variants ← variants_of self_ty
    assert (n_variants == type_count variants)
    assert (ltb index n_variants)
    variant ← type_at variants index
    assert (is same value variant)
    some (normal_branch 0 (enum_value self_ty index value ∷ []))
  eval_init self_ty index n_variants _ = none

  unfoldable pub eval_match : CoreTypeConcrete → TypeList → List Value → Option EvalAction
  unfolding is type_at
  eval_match param_ty branch_types (enum_value self_ty index payload ∷ []) = do
    assert (same self_ty param_ty)
    branch_ty ← type_at branch_types index
    assert (is same payload branch_ty)
    some (normal_branch index (payload ∷ []))
  eval_match param_ty branch_types _ = none

  unfoldable pub eval_snapshot_match : CoreTypeConcrete → TypeList → List Value → Option EvalAction
  unfolding is type_at
  eval_snapshot_match param_ty branch_types (enum_value self_ty index payload ∷ []) = do
    inner ← snapshot_of param_ty
    assert (same inner self_ty)
    branch_ty ← type_at branch_types index
    assert (is same payload branch_ty)
    some (normal_branch index (payload ∷ []))
  eval_snapshot_match param_ty branch_types _ = none

  unfoldable pub eval_construct : CoreTypeConcrete → List Value → Option EvalAction
  unfolding is
  eval_construct struct_ty args = do
    members ← members_of struct_ty
    assert (all_are same (of_list args) members)
    some (normal_branch 0 (struct_value (of_list args) ∷ []))

  unfoldable pub eval_deconstruct : CoreTypeConcrete → List Value → Option EvalAction
  unfolding is
  eval_deconstruct param_ty (struct_value values ∷ []) = do
    members ← members_of param_ty
    assert (all_are same values members)
    some (normal_branch 0 (to_list values))
  eval_deconstruct param_ty _ = none

  unfoldable pub eval_snapshot_deconstruct : CoreTypeConcrete → List Value → Option EvalAction
  unfolding is
  eval_snapshot_deconstruct param_ty (struct_value values ∷ []) = do
    inner ← snapshot_of param_ty
    members ← members_of inner
    assert (all_are same values members)
    some (normal_branch 0 (to_list values))
  eval_snapshot_deconstruct param_ty _ = none

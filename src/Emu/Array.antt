-- ===== src/Emu/Array.antt =====
-- debug_utils/sierra-emu/src/vm/array.rs: the library functions on arrays. A handler takes the types
-- and the number of members that it reads from its signature, then its arguments.
pub mod Laws
mod Examples
use cairo_native.Prelude.{
  ℕ, suc, ◌+◌, ◌-◌, ◌%◌, ◌^◌, ◌&&◌, Bool, true, false, ◌==◌, ltb, leb, if◌then◌else◌, Option, none,
  some, List, [], ◌∷◌,
}
use cairo_native.Types.{CoreTypeConcrete, TypeList}
use cairo_native.Emu.Panic.{◌>>=◌, ◌>>◌, assert}
use cairo_native.Emu.Value.{Value, ValueList, nil, cons, EvalAction, normal_branch, unit}
use cairo_native.Emu.Is.{is}
use cairo_native.Emu.Items.{length, get_elem?, append, push, take, drop}

-- `find_real_type` of lib.rs: the type inside boxes and snapshots.
abbrev pub find_real_type : CoreTypeConcrete → CoreTypeConcrete
find_real_type (CoreTypeConcrete.boxed t) = find_real_type t
find_real_type (CoreTypeConcrete.uninitialized t) = find_real_type t
find_real_type (CoreTypeConcrete.span t) = find_real_type t
find_real_type (CoreTypeConcrete.snapshot t) = find_real_type t
find_real_type t = t

-- The item type of an array type.
abbrev pub item_type : CoreTypeConcrete → Option CoreTypeConcrete
item_type (CoreTypeConcrete.array t) = some t
item_type _ = none

abbrev pub type_count : TypeList → ℕ
type_count TypeList.nil = 0
type_count (TypeList.cons t ts) = suc (type_count ts)

-- The number of members of a structure type.
abbrev pub member_count : CoreTypeConcrete → Option ℕ
member_count (CoreTypeConcrete.struct_type ts) = some (type_count ts)
member_count _ = none

unfoldable pub eval_span_from_tuple : CoreTypeConcrete → List Value → Option EvalAction
eval_span_from_tuple span_ty (Value.struct_value xs ∷ []) = do
  ty ← item_type (find_real_type span_ty)
  some (normal_branch 0 (Value.array ty xs ∷ []))
eval_span_from_tuple span_ty _ = none

unfoldable pub eval_tuple_from_span : CoreTypeConcrete → List Value → Option EvalAction
unfolding length
eval_tuple_from_span tuple_ty (Value.array ty xs ∷ []) = do
  tuple_len ← member_count tuple_ty
  some (
      if length xs == tuple_len
      then normal_branch 0 (Value.struct_value xs ∷ [])
      else normal_branch 1 [])
eval_tuple_from_span tuple_ty _ = none

unfoldable pub eval_array_new : CoreTypeConcrete → List Value → Option EvalAction
eval_array_new array_ty [] = do
  ty ← item_type array_ty
  some (normal_branch 0 (Value.array ty nil ∷ []))
eval_array_new array_ty _ = none

unfoldable pub eval_get : List Value → Option EvalAction
unfolding get_elem?
eval_get (unit ∷ Value.array ty xs ∷ Value.u32 index ∷ []) = some (elim (get_elem? xs index) [
  | some value ↦ normal_branch 0 (unit ∷ value ∷ [])
  | none ↦ normal_branch 1 (unit ∷ [])
])
eval_get _ = none

-- The sum of the start and the length is an `u32`.
unfoldable pub eval_slice : List Value → Option EvalAction
unfolding length take drop
eval_slice (unit ∷ Value.array ty xs ∷ Value.u32 start ∷ Value.u32 len ∷ []) =
    let end = (start + len) % 2 ^ 32 in
    some (
      if leb start end && leb end (length xs)
      then normal_branch 0 (unit ∷ Value.array ty (take (end - start) (drop start xs)) ∷ [])
      else normal_branch 1 (unit ∷ []))
eval_slice _ = none

unfoldable pub eval_len : List Value → Option EvalAction
unfolding length
eval_len (Value.array ty xs ∷ []) = do
  assert (ltb (length xs) (2 ^ 32))
  some (normal_branch 0 (Value.u32 (length xs) ∷ []))
eval_len _ = none

unfoldable pub eval_pop_front : List Value → Option EvalAction
eval_pop_front (Value.array ty (cons x xs) ∷ []) =
    some (normal_branch 0 (Value.array ty xs ∷ x ∷ []))
eval_pop_front (Value.array ty nil ∷ []) = some (normal_branch 1 (Value.array ty nil ∷ []))
eval_pop_front _ = none

unfoldable pub eval_pop_front_consume : List Value → Option EvalAction
eval_pop_front_consume (Value.array ty (cons x xs) ∷ []) =
    some (normal_branch 0 (Value.array ty xs ∷ x ∷ []))
eval_pop_front_consume (Value.array ty nil ∷ []) = some (normal_branch 1 [])
eval_pop_front_consume _ = none

module _ (same : CoreTypeConcrete → CoreTypeConcrete → Bool) where
  unfoldable pub eval_append : CoreTypeConcrete → List Value → Option EvalAction
  unfolding is append
  eval_append item_ty (Value.array ty xs ∷ item ∷ []) = do
    assert (same item_ty ty)
    assert (is same item ty)
    some (normal_branch 0 (Value.array ty (push xs item) ∷ []))
  eval_append item_ty _ = none

  unfoldable pub eval_snapshot_pop_front : CoreTypeConcrete → List Value → Option EvalAction
  unfolding is
  eval_snapshot_pop_front item_ty (Value.array ty (cons x xs) ∷ []) = do
    assert (is same x item_ty)
    some (normal_branch 0 (Value.array ty xs ∷ x ∷ []))
  eval_snapshot_pop_front item_ty (Value.array ty nil ∷ []) =
      some (normal_branch 1 (Value.array ty nil ∷ []))
  eval_snapshot_pop_front item_ty _ = none

  unfoldable pub eval_snapshot_pop_back : CoreTypeConcrete → List Value → Option EvalAction
  unfolding is length get_elem? take
  eval_snapshot_pop_back item_ty (Value.array ty nil ∷ []) =
      some (normal_branch 1 (Value.array ty nil ∷ []))
  eval_snapshot_pop_back item_ty (Value.array ty xs ∷ []) = do
    value ← get_elem? xs (length xs - 1)
    assert (is same value item_ty)
    some (normal_branch 0 (Value.array ty (take (length xs - 1) xs) ∷ value ∷ []))
  eval_snapshot_pop_back item_ty _ = none

  unfoldable pub eval_snapshot_multi_pop_front : CoreTypeConcrete → List Value → Option EvalAction
  unfolding is length take drop
  eval_snapshot_multi_pop_front popped_ty (range_check ∷ Value.array ty xs ∷ []) = do
    members ← member_count popped_ty
    let value = Value.struct_value (take members xs)
    if leb members (length xs)
        then (do
          assert (is same value popped_ty)
          some (normal_branch 0 (range_check ∷ Value.array ty (drop members xs) ∷ value ∷ [])))
        else some (normal_branch 1 (range_check ∷ Value.array ty xs ∷ []))
  eval_snapshot_multi_pop_front popped_ty _ = none

  unfoldable pub eval_snapshot_multi_pop_back : CoreTypeConcrete → List Value → Option EvalAction
  unfolding is length take drop
  eval_snapshot_multi_pop_back popped_ty (range_check ∷ Value.array ty xs ∷ []) = do
    members ← member_count popped_ty
    let rest = length xs - members
    let value = Value.struct_value (drop rest xs)
    if leb members (length xs)
        then (do
          assert (is same value popped_ty)
          some (normal_branch 0 (range_check ∷ Value.array ty (take rest xs) ∷ value ∷ [])))
        else some (normal_branch 1 (range_check ∷ Value.array ty xs ∷ []))
  eval_snapshot_multi_pop_back popped_ty _ = none

-- ===== src/Emu/Dict.antt =====
-- debug_utils/sierra-emu/src/vm/felt252_dict.rs and felt252_dict_entry.rs. The hash map of a
-- dictionary is a list of entries, one for each key.
pub mod Map
pub mod Account
mod Examples
use cairo_native.Prelude.{
  ℕ, suc, ◌+◌, ◌-◌, ◌*◌, ◌^◌, ◌%◌, Bool, ◌==◌, ltb, if◌then◌else◌, Option, none, some, List, [],
  ◌∷◌,
}
use cairo_native.Types.{CoreTypeConcrete, TypeList}
use cairo_native.Emu.Panic.{◌>>=◌, ◌>>◌, assert}
use cairo_native.Emu.Value.{
  Value, ValueList, nil, cons, EntryList, no_entry, entry, EvalAction, normal_branch, unit,
}
use cairo_native.Emu.Is.{is}

-- `HashMap::len`, `get` and `insert`.
unfoldable pub length : EntryList → ℕ
length no_entry = 0
length (entry k v es) = suc (length es)

unfoldable pub get : EntryList → ℕ → Option Value
get no_entry key = none
get (entry k v es) key = if k == key then some v else get es key

unfoldable pub insert : EntryList → ℕ → Value → EntryList
insert no_entry key value = entry key value no_entry
insert (entry k v es) key value =
    let rest = insert es key value in if k == key then entry k value es else entry k v rest

-- `Value::default_for_type`
unfoldable mutual
  pub default_for_type : CoreTypeConcrete → Option Value
  default_for_type CoreTypeConcrete.uint8 = some (Value.u8 0)
  default_for_type CoreTypeConcrete.uint32 = some (Value.u32 0)
  default_for_type CoreTypeConcrete.uint64 = some (Value.u64 0)
  default_for_type CoreTypeConcrete.uint16 = some (Value.u16 0)
  default_for_type CoreTypeConcrete.uint128 = some (Value.u128 0)
  default_for_type CoreTypeConcrete.felt252 = some (Value.felt 0)
  default_for_type (CoreTypeConcrete.enum_type TypeList.nil) = none
  default_for_type (CoreTypeConcrete.enum_type (TypeList.cons t ts)) = do
    payload ← default_for_type t
    some (Value.enum_value (CoreTypeConcrete.enum_type (TypeList.cons t ts)) 0 payload)
  default_for_type (CoreTypeConcrete.array t) = some (Value.array t nil)
  default_for_type (CoreTypeConcrete.struct_type ts) = do
    members ← default_members ts
    some (Value.struct_value members)
  default_for_type (CoreTypeConcrete.nullable t) = some Value.null
  default_for_type _ = none

  pub default_members : TypeList → Option ValueList
  default_members TypeList.nil = some nil
  default_members (TypeList.cons t ts) = do
    first ← default_for_type t
    others ← default_members ts
    some (cons first others)

-- The value type of a dictionary type.
abbrev pub value_type : CoreTypeConcrete → Option CoreTypeConcrete
value_type (CoreTypeConcrete.felt252_dict t) = some t
value_type _ = none

unfoldable pub eval_dict_new : CoreTypeConcrete → List Value → Option EvalAction
eval_dict_new dict_ty (unit ∷ []) = do
  ty ← value_type dict_ty
  some (normal_branch 0 (unit ∷ Value.felt_dict ty no_entry 0 ∷ []))
eval_dict_new dict_ty _ = none

-- The refund for an access to a key that has been accessed before. The constants of Sierra's gas
-- costs are arguments; products and sums are those of an `u64`, which panic beyond it.
unfoldable pub eval_squash : (refund_per_access : ℕ) → List Value → Option EvalAction
unfolding length
eval_squash refund_per_access
      (unit ∷ Value.u64 gas_builtin ∷ unit ∷ Value.felt_dict ty xs count ∷ []) =
    do
      let refund = (count - length xs) * refund_per_access
      assert (ltb refund (2 ^ 64))
      assert (ltb (gas_builtin + refund) (2 ^ 64))
      some (
          normal_branch 0
            (unit ∷ Value.u64 (gas_builtin + refund) ∷ unit ∷ Value.felt_dict ty xs count ∷ []))
eval_squash refund_per_access _ = none

module _ (same : CoreTypeConcrete → CoreTypeConcrete → Bool) where
  -- The value is the default of the type if the key has none.
  unfoldable pub eval_entry_get : CoreTypeConcrete → List Value → Option EvalAction
  unfolding get insert default_for_type
  eval_entry_get info_ty (Value.felt_dict ty xs count ∷ Value.felt key ∷ []) = do
    assert (same info_ty ty)
    default ← default_for_type ty
    assert (ltb (count + 1) (2 ^ 64))
    some (elim (get xs key) [
      | some value ↦ normal_branch 0 (Value.felt_dict_entry ty xs (count + 1) key ∷ value ∷ [])
      | none ↦
          normal_branch 0
            (Value.felt_dict_entry ty (insert xs key default) (count + 1) key ∷ default ∷ [])
    ])
  eval_entry_get info_ty _ = none

  unfoldable pub eval_entry_finalize : CoreTypeConcrete → List Value → Option EvalAction
  unfolding is insert
  eval_entry_finalize info_ty (Value.felt_dict_entry ty xs count key ∷ value ∷ []) = do
    assert (same info_ty ty)
    assert (is same value ty)
    some (normal_branch 0 (Value.felt_dict ty (insert xs key value) count ∷ []))
  eval_entry_finalize info_ty _ = none

-- ===== src/Refine/Dict.antt =====
-- The squash of a dictionary in the runtime and in the interpreter.
use cairo_native.Prelude.{ℕ, ◌+◌, ◌-◌, ◌*◌, ◌^◌, ◌≡◌, ◌<◌, sym, lt→ltb, arith, some, [], ◌∷◌}
use native.Mathlib.Nat.{mod-eq_of_lt}
use cairo_native.Types.{CoreTypeConcrete}
use cairo_native.Runtime.Dict.{FeltDict, dict_squash}
use cairo_native.Runtime.Dict.{length as keys}
use cairo_native.Emu.Value.{Value, EntryList, normal_branch, unit}
use cairo_native.Emu.Dict.{length, eval_squash}

-- For a dictionary of the runtime and one of the interpreter with as many keys and accesses, and a
-- gas counter that the refund does not carry beyond 2 ^ 64, both give the same gas back.
pub squash-Agree :
    {V : Type 0} (dict : FeltDict V) (ty : CoreTypeConcrete) (xs : EntryList)
    (refund_per_access range_check gas : ℕ)
    → length xs ≡ keys dict.mappings
    → gas + (dict.count - length xs) * refund_per_access < 2 ^ 64
    → eval_squash refund_per_access
        (unit ∷ Value.u64 gas ∷ unit ∷ Value.felt_dict ty xs dict.count ∷ [])
      ≡ some (
          normal_branch 0 (
            unit
            ∷ Value.u64 (dict_squash refund_per_access dict range_check gas).1
            ∷ unit
            ∷ Value.felt_dict ty xs dict.count
            ∷ []))
unfolding eval_squash dict_squash
squash-Agree dict ty xs refund_per_access range_check gas same room =
    let refund = (dict.count - length xs) * refund_per_access in
    rw (
      lt→ltb refund (2 ^ 64) (omega (arith, room)),
      lt→ltb (gas + refund) (2 ^ 64) room,
      sym same,
      mod-eq_of_lt room,
    )

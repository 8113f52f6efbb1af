-- ===== src/Runtime/DictExamples.antt =====
-- A dictionary of elements of 24 bytes, 32 with the padding, whose hash map grows by two: 5 and 8
-- are written, then 9, for which there is a new buffer.
use cairo_native.Prelude.{ℕ, ◌+◌, ◌≡◌, ◌<◌, refl, arith, if◌then◌else◌, ◌==◌, some, none, [], ◌∷◌}
use cairo_native.Types.{felt252}
use cairo_native.Emu.Value.{Value, no_entry, entry, normal_branch, unit}
use cairo_native.Emu.Dict.{length, eval_squash}
use cairo_native.Runtime.Dict.{FeltDict, dict_get, store, value_at, dict_squash}
use cairo_native.Runtime.DictMap.{Sound, Access, dict_get-Access, dict_get-store}
use cairo_native.Refine.Dict.{squash-Agree}

abbrev grow : ℕ → ℕ
grow n = n + 2

grows : (n : ℕ) → n < grow n
grows n = omega arith

abbrev two_keys : FeltDict ℕ
two_keys = record {
  mappings = (8, 1) ∷ (5, 0) ∷ [];
  capacity = 2;
  layout = record { size = 24; align = 4 };
  elements = some (record {
    size = 64;
    items = λ i. if i == 0 then some 50 else if i == 1 then some 80 else none;
  });
  count = 3;
}

two_keys-Sound : Sound two_keys
two_keys-Sound = record {
  dense = (refl, refl, (refl, refl, tt));
  room = omega arith;
  allocated = refl;
}

dict_get-store_example :
    (after : FeltDict ℕ) × (store (dict_get grow two_keys 9).0 (dict_get grow two_keys 9).1 90
      ≡ some after)
    × (value_at after 5 ≡ some 50)
dict_get-store_example = dict_get-store grow grows two_keys two_keys-Sound 9 90 5

dict_get-Access_example : Access 9 (dict_get grow two_keys 9)
dict_get-Access_example = dict_get-Access grow grows two_keys two_keys-Sound 9

squash-Agree_example :
    eval_squash 4 (
      unit
      ∷ Value.u64 100
      ∷ unit
      ∷ Value.felt_dict felt252 (entry 8 (Value.felt 80) (entry 5 (Value.felt 50) no_entry)) 3
      ∷ [])
    ≡ some (
        normal_branch 0 (
          unit
          ∷ Value.u64 (dict_squash 4 two_keys 7 100).1
          ∷ unit
          ∷ Value.felt_dict felt252 (entry 8 (Value.felt 80) (entry 5 (Value.felt 50) no_entry)) 3
          ∷ []))
unfolding length
squash-Agree_example =
    squash-Agree two_keys felt252 (entry 8 (Value.felt 80) (entry 5 (Value.felt 50) no_entry)) 4 7
      100 refl (omega arith)

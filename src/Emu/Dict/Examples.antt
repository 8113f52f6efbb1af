-- ===== src/Emu/Dict/Examples.antt =====
-- A dictionary of felts: it is made, a felt is written to 5, and 5 and 7 are read.
use cairo_native.Prelude.{ℕ, ◌+◌, ◌≡◌, refl, arith, Bool, true, ◌==◌, eq→==, some}
use cairo_native.Types.{CoreTypeConcrete, felt252, uint8, array, felt252_dict}
use cairo_native.Emu.Value.{Value, no_entry, entry}
use cairo_native.Emu.Is.{is}
use cairo_native.Emu.Dict.{
  get, insert, default_for_type, eval_dict_new, eval_entry_get, eval_entry_finalize,
}
use cairo_native.Emu.Dict.Map.{write_read, finalize-get}
use cairo_native.Emu.Dict.Account.{
  Accounted, Reached, created, accessed, finalized, Reached-Accounted,
}

-- Numbers that tell the types of the examples apart.
abbrev code : CoreTypeConcrete → ℕ
code felt252 = 1
code uint8 = 2
code (array t) = 3 + code t
code _ = 0

abbrev same : CoreTypeConcrete → CoreTypeConcrete → Bool
same t u = code t == code u

same_refl : (t : CoreTypeConcrete) → same t t ≡ true
same_refl t = eq→== (code t) (code t) refl

finalize-get_example :
    write_read same felt252
      (Value.felt_dict_entry felt252 (entry 5 (Value.felt 0) no_entry) 1 5)
      (Value.felt 9)
      5
    ≡ some (Value.felt 9)
unfolding default_for_type is
finalize-get_example =
    finalize-get same same_refl felt252 refl (entry 5 (Value.felt 0) no_entry) 1 5 (Value.felt 9) 5
      refl (omega arith)

fresh : Reached same (Value.felt_dict felt252 no_entry 0)
unfolding eval_dict_new
fresh = created (felt252_dict felt252) (Value.felt_dict felt252 no_entry 0) refl

opened : Reached same (Value.felt_dict_entry felt252 (entry 5 (Value.felt 0) no_entry) 1 5)
unfolding eval_entry_get get insert default_for_type
opened =
    accessed felt252 (Value.felt_dict felt252 no_entry 0)
      (Value.felt_dict_entry felt252 (entry 5 (Value.felt 0) no_entry) 1 5) (Value.felt 0) 5 fresh
      refl

written : Reached same (Value.felt_dict felt252 (entry 5 (Value.felt 9) no_entry) 1)
unfolding eval_entry_finalize insert is
written =
    finalized felt252 (Value.felt_dict_entry felt252 (entry 5 (Value.felt 0) no_entry) 1 5)
      (Value.felt_dict felt252 (entry 5 (Value.felt 9) no_entry) 1) (Value.felt 9) opened refl

Reached-Accounted_example : Accounted (Value.felt_dict felt252 (entry 5 (Value.felt 9) no_entry) 1)
Reached-Accounted_example =
    Reached-Accounted same (Value.felt_dict felt252 (entry 5 (Value.felt 9) no_entry) 1) written

-- ===== src/Emu/Array/Examples.antt =====
-- Arrays of felts.
use cairo_native.Prelude.{ℕ, ◌+◌, ◌≡◌, refl, arith, Bool, true, ◌==◌, eq→==, [], ◌∷◌}
use cairo_native.Types.{CoreTypeConcrete, felt252, uint8, array}
use cairo_native.Emu.Value.{Value, ValueList, nil, cons, unit}
use cairo_native.Emu.Items.{length}
use cairo_native.Emu.Array.{eval_get}
use cairo_native.Emu.Array.Laws.{slice_get, slice-get}

-- Numbers that tell the types of the examples apart.
abbrev code : CoreTypeConcrete → ℕ
code felt252 = 1
code uint8 = 2
code (array t) = 3 + code t
code _ = 0

abbrev same : CoreTypeConcrete → CoreTypeConcrete → Bool
same t u = code t == code u

same_refl : (t : CoreTypeConcrete) → same t t ≡ true
same_refl t = eq→== (code t) (code t) refl

abbrev three : ValueList
three = cons (Value.felt 4) (cons (Value.felt 5) (cons (Value.felt 6) nil))

slice-get_example :
    slice_get felt252 three 1 2 1
    ≡ eval_get (unit ∷ Value.array felt252 three ∷ Value.u32 (1 + 1) ∷ [])
unfolding length
slice-get_example = slice-get felt252 three 1 2 1 (omega arith) (omega arith) (omega arith)

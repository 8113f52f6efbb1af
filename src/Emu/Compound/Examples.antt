-- ===== src/Emu/Compound/Examples.antt =====
-- An `Option` of a felt, and a pair.
use cairo_native.Prelude.{ℕ, ◌≡◌, refl, Bool, true, ◌==◌, eq→==}
use cairo_native.Types.{
  CoreTypeConcrete, TypeList, nil, cons, felt252, uint8, enum_type, struct_type,
}

-- Numbers that tell the types of the examples apart.
abbrev code : CoreTypeConcrete → ℕ
code felt252 = 1
code uint8 = 2
code (enum_type ts) = 3
code (struct_type ts) = 4
code _ = 0

abbrev same : CoreTypeConcrete → CoreTypeConcrete → Bool
same t u = code t == code u

same_refl : (t : CoreTypeConcrete) → same t t ≡ true
same_refl t = eq→== (code t) (code t) refl

abbrev choices : TypeList
choices = cons uint8 (cons felt252 nil)

-- ===== src/Types/Layout/Examples.antt =====
-- Layouts of concrete types: an `Option` of a felt, a structure of a byte and a word, a unit.
use cairo_native.Prelude.{ℕ, ◌≡◌, ◌≤◌, refl, [], ◌∷◌}
use cairo_native.Error.{ok, ◌>>=◌}
use cairo_native.Num.Bits.{bits}
use cairo_native.Types.Defs.{
  CoreTypeConcrete, TypeList, nil, cons, felt252, uint8, uint64, struct_type, enum_type, snapshot,
}
use cairo_native.Types.Layout.Defs.{
  Layout, unit_layout, from_size_align, extend, get_integer_layout, pad_to_align,
}
use cairo_native.Types.Layout.Types.{layout, raw_layout}
use cairo_native.Types.Layout.Flags.{is_zst}
use cairo_native.Types.Layout.Variants.{
  add_variants, get_layout_for_variants, layout-get_layout_for_variants,
}
use cairo_native.Types.Layout.Bounds.{Aligned, layout-Aligned}
use cairo_native.Types.Layout.Payloads.{AllInside, get_layout_for_variants-Roomy}
use cairo_native.Types.Layout.Zst.{is_zst-layout}

abbrev unit : CoreTypeConcrete
unit = struct_type nil

abbrev variants : TypeList
variants = cons felt252 (cons unit nil)

abbrev option_felt : CoreTypeConcrete
option_felt = enum_type variants

abbrev pair : CoreTypeConcrete
pair = struct_type (cons uint8 (cons uint64 nil))

abbrev bytes : ℕ → ℕ → Layout
bytes n a = record { size = n; align = a }

layout-Aligned_example : Aligned (bytes 16 3)
unfolding layout raw_layout extend from_size_align get_integer_layout
layout-Aligned_example = layout-Aligned pair refl

is_zst-layout_example : layout (snapshot unit) ≡ ok unit_layout
unfolding is_zst
is_zst-layout_example = is_zst-layout (snapshot unit) refl

layout-get_layout_for_variants_example :
    layout option_felt ≡ (get_layout_for_variants variants >>= (λ l. ok (pad_to_align l.0)))
layout-get_layout_for_variants_example = layout-get_layout_for_variants variants

get_layout_for_variants-Roomy_example :
    (1 ≤ 48) × (0 ≤ 4) × AllInside (bytes 1 0) (bytes 48 4) (bytes 32 4 ∷ unit_layout ∷ [])
unfolding get_layout_for_variants add_variants layout raw_layout extend from_size_align
    get_integer_layout bits
get_layout_for_variants-Roomy_example =
    get_layout_for_variants-Roomy variants (bytes 48 4) (bytes 1 0) (bytes 32 4 ∷ unit_layout ∷ [])
      refl

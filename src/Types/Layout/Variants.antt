-- ===== src/Types/Layout/Variants.antt =====
-- get_layout_for_variants of src/types/enum.rs, which says where the builders of an enumeration put
-- its tag and its payloads, against the layout of the type.
use cairo_native.Prelude.{◌≡◌, refl, ap, ◌∙◌, max, List, [], ◌∷◌, ◌++◌}
use cairo_native.Error.{Result, ok, err, layout_error, ◌>>=◌}
use cairo_native.Types.Defs.{TypeList, nil, cons, enum_type}
use cairo_native.Types.Layout.Defs.{Layout, get_integer_layout, from_size_align, pad_to_align}
use cairo_native.Types.Layout.Types.{
  layout, raw_layout, variants_layout, extended, padded, tag_bits, count,
}

-- The loop over the variants, with the layout and the output so far.
unfoldable pub add_variants :
    Layout → Layout → List Layout → TypeList → Result (Layout × List Layout)
unfolding layout
add_variants tag_layout acc output nil = ok (acc, output)
add_variants tag_layout acc output (cons variant variants) = do
  payload_layout ← layout variant
  full_layout ← extended tag_layout payload_layout
  wider ←
      from_size_align layout_error (max acc.size full_layout.size) (max acc.align full_layout.align)
  add_variants tag_layout wider (output ++ payload_layout ∷ []) variants

-- The whole layout, that of the tag, and those of the payloads.
unfoldable pub get_layout_for_variants : TypeList → Result (Layout × Layout × List Layout)
unfolding add_variants get_integer_layout
get_layout_for_variants variants = do
  let tag_layout = get_integer_layout (tag_bits (count variants))
  (l, output) ← add_variants tag_layout tag_layout [] variants
  ok (l, tag_layout, output)

abbrev whole : Layout × List Layout → Result Layout
whole p = ok p.0

-- A step that the fold and the loop share.
shared :
    (x : Result Layout) (f : Layout → Result Layout) (g : Layout → Result (Layout × List Layout))
    → ((l : Layout) → f l ≡ (g l >>= whole))
    → (x >>= f) ≡ (x >>= g >>= whole)
shared (ok l) f g h = h l
shared (err e) f g h = refl

fold_loop :
    (tag acc : Layout) (output : List Layout) (ts : TypeList)
    → variants_layout tag acc ts ≡ (add_variants tag acc output ts >>= whole)
unfolding raw_layout add_variants layout
fold_loop tag acc output nil = refl
fold_loop tag acc output (cons t ts) = shared (padded (raw_layout t)) _ _ (λ payload.
    shared (extended tag payload) _ _ (λ l.
      shared (from_size_align layout_error (max acc.size l.size) (max acc.align l.align)) _ _
        (λ wider. fold_loop tag wider (output ++ payload ∷ []) ts)))

first_of :
    (x : Result (Layout × List Layout)) (tag : Layout)
    → padded (x >>= whole)
      ≡ ◌>>=◌ {S = Layout × Layout × List Layout}
          (x >>= (λ p. ok (p.0, tag, p.1)))
          (λ p. ok (pad_to_align p.0))
first_of (ok p) tag = refl
first_of (err e) tag = refl

-- The two computations of an enumeration's layout agree: the layout of the type is the one that
-- the builders use, padded, with the same errors.
pub layout-get_layout_for_variants :
    (variants : TypeList)
    → layout (enum_type variants)
      ≡ (get_layout_for_variants variants >>= (λ l. ok (pad_to_align l.0)))
unfolding layout raw_layout get_layout_for_variants
layout-get_layout_for_variants variants =
    let tag = get_integer_layout (tag_bits (count variants)) in
    ap padded (fold_loop tag tag [] variants) ∙ first_of (add_variants tag tag [] variants) tag

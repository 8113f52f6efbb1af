-- ===== src/Types/Layout/Payloads.antt =====
-- In the layout of an enumeration, every payload stands behind the tag and ends within the layout.
use cairo_native.Prelude.{
  ℕ, zero, suc, ◌+◌, ◌^◌, ◌≡◌, ◌≢◌, ◌≤◌, refl, max, leb, List, [], ◌∷◌, ◌++◌, arith, Bool-cases,
  inl, inr,
}
use mathlib.Core.Path.{subst}
use cairo_native.Error.{Error, Result, ok, err, layout_error, ◌>>=◌}
use cairo_native.Types.Defs.{TypeList, nil, cons}
use cairo_native.Types.Layout.Defs.{Layout, get_integer_layout, from_size_align, extend, round_up}
use cairo_native.Types.Layout.Types.{layout, raw_layout, extended, padded, tag_bits, count}
use cairo_native.Types.Layout.Rounding.{WellFormed, Good}
use cairo_native.Types.Layout.Bounds.{raw-Good, padded-Good}
use cairo_native.Types.Layout.Variants.{add_variants, get_layout_for_variants}

-- A payload behind the tag that ends within the layout.
pub record Inside (tag l payload : Layout) : Type 0 where
  pub tag_ends : tag.size ≤ round_up tag.size payload.align
  pub ends : round_up tag.size payload.align + payload.size ≤ l.size
  pub align_le : payload.align ≤ l.align

abbrev pub AllInside : Layout → Layout → List Layout → Type 0
AllInside tag l [] = Unit
AllInside tag l (p ∷ ps) = Inside tag l p × AllInside tag l ps

abbrev Wider : Layout → Layout → Type 0
Wider l l' = (l.size ≤ l'.size) × (l.align ≤ l'.align)

AllInside-Wider :
    (tag l l' : Layout) (ps : List Layout) → Wider l l' → AllInside tag l ps → AllInside tag l' ps
AllInside-Wider tag l l' [] w h = tt
AllInside-Wider tag l l' (p ∷ ps) w (h, hs) = (
  record {
    tag_ends = h.tag_ends;
    ends = omega (arith, h.ends, w);
    align_le = omega (arith, h.align_le, w);
  },
  AllInside-Wider tag l l' ps w hs,
)

AllInside-append :
    (tag l p : Layout) (ps : List Layout)
    → AllInside tag l ps
    → Inside tag l p
    → AllInside tag l (ps ++ p ∷ [])
AllInside-append tag l p [] hs h = (h, tt)
AllInside-append tag l p (q ∷ ps) (k, hs) h = (k, AllInside-append tag l p ps hs h)

-- What holds of a result, if there is one.
abbrev Sat {ℓ} : {A : Type ℓ} → (A → Type 0) → Result A → Type 0
Sat P (ok a) = P a
Sat P (err e) = Unit

then-Sat {ℓ κ} :
    {A : Type ℓ} {B : Type κ} (P : A → Type 0) (Q : B → Type 0) (x : Result A) (f : A → Result B)
    → Sat P x
    → ((a : A) → P a → Sat Q (f a))
    → Sat Q (x >>= f)
then-Sat P Q (ok a) f h next = next a h
then-Sat P Q (err e) f h next = tt

from_size_align-Sat :
    (e : Error) (n a : ℕ) → Sat (λ l. (l.size ≡ n) × (l.align ≡ a)) (from_size_align e n a)
unfolding from_size_align
from_size_align-Sat e n a = elim (Bool-cases (leb (n + 2 ^ a) (2 ^ 63))) [
  | inl k ↦ rw k (refl, refl)
  | inr k ↦ rw k tt
]

Behind : Layout → Layout → Layout → Type 0
Behind l next full =
    (full.size ≡ round_up l.size next.align + next.size) × (full.align ≡ max l.align next.align)

extended-Sat : (l next : Layout) → Sat (Behind l next) (extended l next)
unfolding extend Behind
extended-Sat l next =
    then-Sat {A = Layout × ℕ} (λ p. Behind l next p.0) (Behind l next) _ (λ p. ok p.0)
      (then-Sat (Behind l next) _ _ (λ full. ok (full, round_up l.size next.align))
        (from_size_align-Sat layout_error (round_up l.size next.align + next.size)
          (max l.align next.align))
        (λ full h. h))
      (λ p h. h)

at_least : (n a : ℕ) → a ≤ 4 → n ≤ round_up n a
at_least n zero h = omega arith
at_least n (suc zero) h = omega arith
at_least n (suc (suc zero)) h = omega arith
at_least n (suc (suc (suc zero))) h = omega arith
at_least n (suc (suc (suc (suc zero)))) h = omega arith
at_least n (suc (suc (suc (suc (suc a))))) h = absurd (omega (arith, h))

Good-Sat : (x : Result Layout) → Good x → Sat WellFormed x
Good-Sat (ok l) h = h
Good-Sat (err e) h = tt

abbrev Kept : Layout → Layout → Layout × List Layout → Type 0
Kept tag acc p = Wider acc p.0 × AllInside tag p.0 p.1

Sat-map {ℓ} :
    {A : Type ℓ} {P Q : A → Type 0} (x : Result A) → ((a : A) → P a → Q a) → Sat P x → Sat Q x
Sat-map (ok a) f h = f a h
Sat-map (err e) f h = tt

-- The loop keeps the payloads inside.
loop-Sat :
    (tag acc : Layout) (output : List Layout) (ts : TypeList)
    → AllInside tag acc output
    → Sat (Kept tag acc) (add_variants tag acc output ts)
unfolding add_variants layout Behind
loop-Sat tag acc output nil h = ((omega arith, omega arith), h)
loop-Sat tag acc output (cons t ts) h =
    then-Sat WellFormed (Kept tag acc) (padded (raw_layout t)) _
      (Good-Sat (padded (raw_layout t)) (padded-Good (raw_layout t) (raw-Good t)))
      (λ payload wf.
        then-Sat (Behind tag payload) (Kept tag acc) (extended tag payload) _
          (extended-Sat tag payload)
          (λ full b.
            then-Sat (λ l. (l.size ≡ max acc.size full.size) × (l.align ≡ max acc.align full.align))
              (Kept tag acc) _ _
              (from_size_align-Sat layout_error (max acc.size full.size) (max acc.align full.align))
              (λ wider w.
                let grown : Wider acc wider = (omega (arith, w), omega (arith, w)) in
                let new : Inside tag wider payload = record {
                  tag_ends = at_least tag.size payload.align wf.align_le;
                  ends = omega (arith, w, b);
                  align_le = omega (arith, w, b);
                } in
                let rest = loop-Sat tag wider (output ++ payload ∷ []) ts (
                  AllInside-append tag wider payload output
                    (AllInside-Wider tag acc wider output grown h) new) in
                Sat-map (add_variants tag wider (output ++ payload ∷ []) ts)
                  (λ p k. ((omega (arith, k.0, grown), omega (arith, k.0, grown)), k.1)) rest)))

-- What the layout of an enumeration promises to its builders.
abbrev pub Roomy : Layout × Layout × List Layout → Type 0
Roomy p = (p.1.size ≤ p.0.size) × (p.1.align ≤ p.0.align) × AllInside p.1 p.0 p.2

roomy :
    (x : Result (Layout × List Layout)) (tag : Layout)
    → Sat (Kept tag tag) x
    → Sat Roomy (x >>= (λ p. ok (p.0, tag, p.1)))
roomy (ok p) tag h = (h.0.0, h.0.1, h.1)
roomy (err e) tag h = tt

variants-Sat : (ts : TypeList) → Sat Roomy (get_layout_for_variants ts)
unfolding get_layout_for_variants
variants-Sat ts =
    let tag = get_integer_layout (tag_bits (count ts)) in
    roomy (add_variants tag tag [] ts) tag (loop-Sat tag tag [] ts tt)

same_result : {p q : Layout × Layout × List Layout} → ok p ≡ ok q → p ≡ q
same_result e = cc

no_result : {e : Error} {p : Layout × Layout × List Layout} → err e ≢ ok p
no_result h = cc

known :
    (x : Result (Layout × Layout × List Layout)) {p : Layout × Layout × List Layout}
    → Sat Roomy x
    → x ≡ ok p
    → Roomy p
known (ok q) h e = subst Roomy (same_result e) h
known (err e) h k = absurd (no_result k)

-- If the builders of an enumeration are given a layout, it holds the tag, and every payload, put
-- behind the tag at its own alignment, ends within it and is aligned where the whole is.
pub get_layout_for_variants-Roomy :
    (variants : TypeList) (l tag : Layout) (payloads : List Layout)
    → get_layout_for_variants variants ≡ ok (l, tag, payloads)
    → (tag.size ≤ l.size) × (tag.align ≤ l.align) × AllInside tag l payloads
get_layout_for_variants-Roomy variants l tag payloads h =
    known (get_layout_for_variants variants) (variants-Sat variants) h

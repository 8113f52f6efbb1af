-- ===== src/Runtime/DictKeys.antt =====
-- The keys of the dictionary of src/runtime.rs and the indices of their elements.
use cairo_native.Prelude.{
  ℕ, ◌≡◌, ◌≢◌, ◌<◌, arith, ◌==◌, ==→eq, none, some, List, [], ◌∷◌, Bool-cases, inl, inr,
}
use cairo_native.Runtime.Dict.{length, lookup}

-- Every key has the index that was the number of keys when it came.
abbrev pub Dense : List (ℕ × ℕ) → Type 0
Dense [] = Unit
Dense ((k, i) ∷ ms) = (i ≡ length ms) × (lookup ms k ≡ none) × Dense ms

not_found : {i : ℕ} → none ≢ some i
not_found h = cc

same_index : {i j : ℕ} → some i ≡ some j → i ≡ j
same_index h = cc

pub lookup-lt : (ms : List (ℕ × ℕ)) (k i : ℕ) → Dense ms → lookup ms k ≡ some i → i < length ms
lookup-lt [] k i d h = absurd (not_found h)
lookup-lt ((j, n) ∷ ms) k i (e, fresh, d) h = elim (Bool-cases (j == k)) [
  | inl f ↦ omega (arith, e, same_index (rw f at h))
  | inr f ↦ omega (arith, lookup-lt ms k i d (rw f at h))
]

-- Two keys with the same element are one.
pub lookup-injective :
    (ms : List (ℕ × ℕ)) (k j i : ℕ) → Dense ms → lookup ms k ≡ some i → lookup ms j ≡ some i → k ≡ j
lookup-injective [] k j i d h g = absurd (not_found h)
lookup-injective ((m, n) ∷ ms) k j i (e, fresh, d) h g = elim (Bool-cases (m == k)) [
  | inl f ↦ elim (Bool-cases (m == j)) [
    | inl f' ↦ omega (arith, ==→eq m k f, ==→eq m j f')
    | inr f' ↦ absurd (omega (arith, e, same_index (rw f at h), lookup-lt ms j i d (rw f' at g)))
  ]
  | inr f ↦ elim (Bool-cases (m == j)) [
    | inl f' ↦ absurd (omega (arith, e, same_index (rw f' at g), lookup-lt ms k i d (rw f at h)))
    | inr f' ↦ lookup-injective ms k j i d (rw f at h) (rw f' at g)
  ]
]

-- ===== src/Types/Layout/Rounding.antt =====
-- Sizes that are rounded up to an alignment, and layouts whose rounded size an `isize` holds.
use cairo_native.Prelude.{
  ℕ, zero, suc, ◌+◌, ◌-◌, ◌*◌, ◌%◌, ◌^◌, ◌≡◌, ◌≤◌, ◌<◌, max, leb, arith, Bool-cases, inl, inr,
  leb→le,
}
use cairo_native.Error.{Error, Result, ok, err, ◌>>=◌}
use cairo_native.Types.Layout.Defs.{
  Layout, round_up, from_size_align, extend, pad_to_align, get_integer_layout, layout_repeat,
  padding_needed_for,
}
use cairo_native.Types.Layout.Types.{extended, repeated}

-- What rounding does to a size.
pub record Rounded (n a : ℕ) : Type 0 where
  pub at_least : n ≤ round_up n a
  pub fits : round_up n a + 2 ^ a ≤ 2 ^ 63
  pub whole : round_up n a % 2 ^ a ≡ 0
  pub near : round_up n a < n + 2 ^ a

pub round_up-Rounded : (n a : ℕ) → a ≤ 4 → n + 2 ^ a ≤ 2 ^ 63 → Rounded n a
round_up-Rounded n zero h k = record {
  at_least = omega arith;
  fits = omega arith;
  whole = omega arith;
  near = omega arith;
}
round_up-Rounded n (suc zero) h k = record {
  at_least = omega arith;
  fits = omega arith;
  whole = omega arith;
  near = omega arith;
}
round_up-Rounded n (suc (suc zero)) h k = record {
  at_least = omega arith;
  fits = omega arith;
  whole = omega arith;
  near = omega arith;
}
round_up-Rounded n (suc (suc (suc zero))) h k = record {
  at_least = omega arith;
  fits = omega arith;
  whole = omega arith;
  near = omega arith;
}
round_up-Rounded n (suc (suc (suc (suc zero)))) h k = record {
  at_least = omega arith;
  fits = omega arith;
  whole = omega arith;
  near = omega arith;
}
round_up-Rounded n (suc (suc (suc (suc (suc a))))) h k = absurd (omega (arith, h))

-- An alignment of 16 bytes at most, and a size that `from_size_align` admits.
pub record WellFormed (l : Layout) : Type 0 where
  pub align_le : l.align ≤ 4
  pub fits : l.size + 2 ^ l.align ≤ 2 ^ 63

-- A layout, if there is one, is well formed.
abbrev pub Good : Result Layout → Type 0
Good (ok l) = WellFormed l
Good (err e) = Unit

pub then-Good :
    (x : Result Layout) (f : Layout → Result Layout)
    → Good x
    → ((l : Layout) → WellFormed l → Good (f l))
    → Good (x >>= f)
then-Good (ok l) f g next = next l g
then-Good (err e) f g next = tt

pub from_size_align-Good : (e : Error) (n a : ℕ) → a ≤ 4 → Good (from_size_align e n a)
unfolding from_size_align
from_size_align-Good e n a h = elim (Bool-cases (leb (n + 2 ^ a) (2 ^ 63))) [
  | inl k ↦ rw k (record { align_le = h; fits = leb→le (n + 2 ^ a) (2 ^ 63) k })
  | inr k ↦ rw k tt
]

pub pad_to_align-WellFormed : (l : Layout) → WellFormed l → WellFormed (pad_to_align l)
pad_to_align-WellFormed l h = record {
  align_le = h.align_le;
  fits = (round_up-Rounded l.size l.align h.align_le h.fits).fits;
}

fst_layout :
    (x : Result Layout) (k : ℕ)
    → Good x
    → Good (◌>>=◌ {S = Layout × ℕ} (x >>= (λ l. ok (l, k))) (λ p. ok (p.0)))
fst_layout (ok l) k g = g
fst_layout (err e) k g = tt

pub extended-Good : (l next : Layout) → WellFormed l → WellFormed next → Good (extended l next)
unfolding extend
extended-Good l next h k =
    fst_layout _ (round_up l.size next.align)
      (from_size_align-Good _ _ (max l.align next.align) (omega (arith, h.align_le, k.align_le)))

pub repeated-Good : (l : Layout) (n : ℕ) → WellFormed l → Good (repeated l n)
unfolding layout_repeat
repeated-Good l n h =
    let size = l.size + padding_needed_for l l.align in
    elim (Bool-cases (leb (size * n) (2 ^ 64 - 1))) [
      | inl e ↦ rw e (fst_layout _ size (from_size_align-Good _ _ l.align h.align_le))
      | inr e ↦ rw e tt
    ]

pub get_integer_layout-WellFormed : (w : ℕ) → w < 2 ^ 32 → WellFormed (get_integer_layout w)
unfolding get_integer_layout
get_integer_layout-WellFormed w h = record {
  align_le = ground (arith, h);
  fits = ground (arith, h);
}

-- The copy of the padding computation of the standard library gives what the rounding needs, for
-- a size and an alignment up to 16 that `from_size_align` admits: no step of it overflows.
padding_needed_for-round_up :
    (l : Layout) (a : ℕ)
    → a ≤ 4
    → l.size + 2 ^ a ≤ 2 ^ 63
    → l.size + padding_needed_for l a ≡ round_up l.size a
unfolding padding_needed_for
padding_needed_for-round_up l zero h k = omega arith
padding_needed_for-round_up l (suc zero) h k = omega arith
padding_needed_for-round_up l (suc (suc zero)) h k = omega arith
padding_needed_for-round_up l (suc (suc (suc zero))) h k = omega arith
padding_needed_for-round_up l (suc (suc (suc (suc zero)))) h k = omega arith
padding_needed_for-round_up l (suc (suc (suc (suc (suc a))))) h k = absurd (omega (arith, h))

-- ===== src/Types/Layout/Defs.antt =====
-- Sizes and alignments. An alignment is a power of two and is given by its exponent, a `usize`
-- has 64 bits. `Layout` and its methods are those of `std::alloc`.
use cairo_native.Prelude.{ℕ, ◌+◌, ◌-◌, ◌*◌, ◌/◌, ◌%◌, ◌^◌, max, leb, ◌==◌, if◌then◌else◌}
use cairo_native.Error.{Result, ok, err, Error, layout_error, layout_error_polyfill, ◌>>=◌}

pub record Layout : Type 0 where
  pub size : ℕ
  pub align : ℕ

-- The least multiple of the alignment that is not below the size.
abbrev pub round_up : ℕ → ℕ → ℕ
round_up n a = (n + (2 ^ a - 1)) / 2 ^ a * 2 ^ a

-- `Layout::from_size_align`, with the error that is made of its failure: the rounded size must
-- fit into an `isize`.
unfoldable pub from_size_align : Error → ℕ → ℕ → Result Layout
from_size_align e n a =
    if leb (n + 2 ^ a) (2 ^ 63) then ok (record { size = n; align = a }) else err e

-- `Layout::extend`: the layout, and the offset of what is added.
unfoldable pub extend : Layout → Layout → Result (Layout × ℕ)
extend l next = do
  let offset = round_up l.size next.align
  layout ← from_size_align layout_error (offset + next.size) (max l.align next.align)
  ok (layout, offset)

abbrev pub pad_to_align : Layout → Layout
pad_to_align l = record { size = round_up l.size l.align; align = l.align }

-- `Layout::new::<()>()`
abbrev pub unit_layout : Layout
unit_layout = record { size = 0; align = 0 }

-- `Layout::new` at a pointer or an `u64`.
abbrev pub word_layout : Layout
word_layout = record { size = 8; align = 3 }

unfoldable pub get_integer_layout : ℕ → Layout
get_integer_layout width =
    if width == 0
    then unit_layout
    else if leb width 8
    then record { size = 1; align = 0 }
    else if leb width 16
    then record { size = 2; align = 1 }
    else if leb width 32
    then record { size = 4; align = 2 }
    else if leb width 64
    then word_layout
    else if leb width 128
    then record { size = 16; align = 4 }
    else record { size = (width + 7) / 8; align = 4 }

-- The bit mask takes the rest by the alignment away.
unfoldable pub padding_needed_for : Layout → ℕ → ℕ
padding_needed_for l a =
    let last = (l.size + 2 ^ a + (2 ^ 64 - 1)) % 2 ^ 64 in
    let len_rounded_up = last - last % 2 ^ a in (len_rounded_up + (2 ^ 64 - l.size)) % 2 ^ 64

unfoldable pub layout_repeat : Layout → ℕ → Result (Layout × ℕ)
unfolding padding_needed_for from_size_align
layout_repeat l n = do
  let padded_size = l.size + padding_needed_for l l.align
  layout ←
      if leb (padded_size * n) (2 ^ 64 - 1)
      then from_size_align layout_error_polyfill (padded_size * n) l.align
      else err layout_error_polyfill
  ok (layout, padded_size)

-- ===== src/Runtime/Dict.antt =====
-- src/runtime.rs: the dictionary of felts. `mappings` gives each key the index of its element, the
-- newest first, and `capacity` is `mappings.capacity()`. The elements are in a buffer of their own,
-- of some number of bytes, or there is none yet (a null pointer); an element that nothing
-- was written to is `none`. A pointer into the buffer is the index that the code multiplies by the
-- padded size of an element.
use cairo_native.Prelude.{
  ℕ, suc, ◌+◌, ◌-◌, ◌*◌, ◌%◌, ◌^◌, Bool, true, false, ◌&&◌, not, ltb, leb, ◌==◌, if◌then◌else◌,
  Option, none, some, List, [], ◌∷◌,
}
use cairo_native.Types.Layout.Defs.{Layout, pad_to_align}

-- An allocation: its bytes, and the elements in it.
pub record Buffer (V : Type 0) : Type 0 where
  pub size : ℕ
  pub items : ℕ → Option V

pub record FeltDict (V : Type 0) : Type 0 where
  pub mappings : List (ℕ × ℕ)
  pub capacity : ℕ
  pub layout : Layout
  pub elements : Option (Buffer V)
  pub count : ℕ

abbrev pub length {ℓ} : {A : Type ℓ} → List A → ℕ
length [] = 0
length (x ∷ xs) = suc (length xs)

abbrev pub lookup : List (ℕ × ℕ) → ℕ → Option ℕ
lookup [] key = none
lookup ((k, i) ∷ ms) key = if k == key then some i else lookup ms key

abbrev pub dict_new : {V : Type 0} → Layout → FeltDict V
dict_new layout = record {
  mappings = [];
  capacity = 0;
  layout = layout;
  elements = none;
  count = 0;
}

-- The bytes from one element to the next.
abbrev pub stride : Layout → ℕ
stride layout = (pad_to_align layout).size

-- An element of a buffer, of which a null pointer has none.
abbrev pub item : {V : Type 0} → Option (Buffer V) → ℕ → Option V
item none i = none
item (some buffer) i = buffer.items i

-- A new buffer of `new_size` bytes with the first `old_size` bytes of the old one: the elements that
-- lie in them. From a null pointer, or of no bytes, nothing is copied.
abbrev pub reallocated : {V : Type 0} → ℕ → ℕ → ℕ → Option (Buffer V) → Buffer V
reallocated elem_stride old_size new_size old = record {
  size = new_size;
  items = λ i. if leb (elem_stride * i + elem_stride) old_size then item old i else none;
}

-- The dictionary, the index of the key's element, and whether the key was there; `grow` is the
-- capacity of the hash map after an insertion when it was full.
unfoldable pub dict_get : {V : Type 0} → (ℕ → ℕ) → FeltDict V → ℕ → FeltDict V × ℕ × Bool
dict_get grow dict key =
    let num_mappings = length dict.mappings in
    let has_capacity = not (num_mappings == dict.capacity) in
    let capacity = if has_capacity then dict.capacity else grow num_mappings in
    let elem_stride = stride dict.layout in
    elim (lookup dict.mappings key) [
      | some index ↦ (record dict { count = dict.count + 1 }, index, true)
      | none ↦ (
        record {
          mappings = (key, num_mappings) ∷ dict.mappings;
          capacity = capacity;
          layout = dict.layout;
          elements =
              if has_capacity
              then dict.elements
              else some (
                  reallocated elem_stride (elem_stride * num_mappings) (elem_stride * capacity)
                    dict.elements);
          count = dict.count + 1;
        },
        num_mappings,
        false,
      )
    ]

-- A write through the pointer; one that is not within the buffer is undefined behaviour, `none`.
abbrev pub store : {V : Type 0} → FeltDict V → ℕ → V → Option (FeltDict V)
store dict index value = elim dict.elements [
  | none ↦ none
  | some buffer ↦
      if leb (stride dict.layout * index + dict.layout.size) buffer.size
      then some (record dict {
        elements =
            some (record buffer { items = λ i. if i == index then some value else buffer.items i });
      })
      else none
]

-- What the dictionary holds at a key.
abbrev pub value_at : {V : Type 0} → FeltDict V → ℕ → Option V
value_at dict key = elim (lookup dict.mappings key) [ none ↦ none | some i ↦ item dict.elements i ]

abbrev pub all_small : List (ℕ × ℕ) → Bool
all_small [] = true
all_small ((k, i) ∷ ms) = ltb k (2 ^ 128) && all_small ms

-- The counter of the range checks, and the gas, both machine words.
unfoldable pub dict_squash : {V : Type 0} → (refund_per_access : ℕ) → FeltDict V → ℕ → ℕ → ℕ × ℕ
dict_squash refund_per_access dict range_check gas =
    let number_of_keys = length dict.mappings in
    let no_big_keys = all_small dict.mappings in
    let repeated = dict.count - number_of_keys in
    (
      (range_check
            + 2
            + (if no_big_keys then number_of_keys else 0)
            + 2 * number_of_keys
            + (if not no_big_keys && ltb 1 number_of_keys then 4 * (number_of_keys - 1) else 0)
            + repeated)
          % 2 ^ 64,
      (gas + repeated * refund_per_access) % 2 ^ 64,
    )

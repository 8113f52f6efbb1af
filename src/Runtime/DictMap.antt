-- ===== src/Runtime/DictMap.antt =====
-- The dictionary of src/runtime.rs as a map: the buffer of the elements, an access, and a write
-- through the pointer that it gives.
use cairo_native.Prelude.{
  ℕ, zero, suc, ◌+◌, ◌-◌, ◌*◌, ◌^◌, ◌≡◌, ◌≤◌, ◌<◌, refl, sym, ap, ◌∙◌, arith, Bool, false, not,
  le→leb, ◌==◌, ==→eq, eq→==, if◌then◌else◌, Option, none, some, ◌∷◌, Bool-cases, Option-cases, inl,
  inr,
}
use native.Mathlib.Nat.{mul-le-mul_left, div-add-mod', mod-lt}
use mathlib.Core.Bool.{false≢true}
use cairo_native.Types.Layout.Defs.{Layout, round_up}
use cairo_native.Runtime.DictKeys.{Dense, lookup-lt, lookup-injective}
use cairo_native.Runtime.Dict.{
  FeltDict, Buffer, length, lookup, dict_get, store, value_at, stride, item, reallocated,
}

-- The buffer has the bytes of as many elements as the hash map has room for; without a buffer the
-- hash map has room for none.
abbrev pub Allocated : {V : Type 0} → Layout → ℕ → Option (Buffer V) → Type 0
Allocated layout capacity none = capacity ≡ 0
Allocated layout capacity (some buffer) = buffer.size ≡ stride layout * capacity

pub record Sound {V : Type 0} (dict : FeltDict V) : Type 0 where
  pub dense : Dense dict.mappings
  pub room : length dict.mappings ≤ dict.capacity
  pub allocated : Allocated dict.layout dict.capacity dict.elements

-- The bytes of an element are bytes of the buffer, which there is.
pub record Within {V : Type 0} (layout : Layout) (index : ℕ) (elements : Option (Buffer V))
    : Type 0 where
  pub buffer : Buffer V
  pub buffer_eq : elements ≡ some buffer
  pub room : stride layout * index + stride layout ≤ buffer.size

-- The bytes of an element are among those of more elements.
among : (s i n : ℕ) → i < n → s * i + s ≤ s * n
among s i n h = let more : s * suc i ≤ s * n = mul-le-mul_left s h in omega (arith, more)

allocated-Within :
    {V : Type 0} (layout : Layout) (capacity index : ℕ) (elements : Option (Buffer V))
    → Allocated layout capacity elements
    → index < capacity
    → Within layout index elements
allocated-Within layout capacity index none none_yet h = absurd (omega (arith, none_yet, h))
allocated-Within layout capacity index (some buffer) size h = record {
  buffer = buffer;
  buffer_eq = refl;
  room = omega (arith, size, among (stride layout) index capacity h);
}

pow_pos : (a : ℕ) → 0 < 2 ^ a
pow_pos zero = omega arith
pow_pos (suc a) = omega (arith, pow_pos a)

-- The padded size is not below the size.
round_up-ge : (n a : ℕ) → n ≤ round_up n a
round_up-ge n a =
    omega (
      arith,
      pow_pos a,
      div-add-mod' (n + (2 ^ a - 1)) (2 ^ a),
      mod-lt (n + (2 ^ a - 1)) (pow_pos a),
    )

-- What an access gives: a sound dictionary, and a pointer to the key's element in the buffer.
pub record Access {V : Type 0} (key : ℕ) (result : FeltDict V × ℕ × Bool) : Type 0 where
  pub sound : Sound result.0
  pub within : Within result.0.layout result.1 result.0.elements
  pub found : lookup result.0.mappings key ≡ some result.1

module _ {V : Type 0} where
  -- A write into a buffer.
  abbrev put : FeltDict V → Buffer V → ℕ → V → FeltDict V
  put d buffer index value = record d {
    elements =
        some (record buffer { items = λ i. if i == index then some value else buffer.items i });
  }

  -- A pointer within the buffer can be written through.
  store-put :
      (d : FeltDict V) (index : ℕ) (value : V) (w : Within d.layout index d.elements)
      → store d index value ≡ some (put d w.buffer index value)
  store-put d index value w =
      let room : stride d.layout * index + d.layout.size ≤ w.buffer.size =
        omega (arith, w.room, round_up-ge d.layout.size d.layout.align) in
      rw (w.buffer_eq, le→leb (stride d.layout * index + d.layout.size) w.buffer.size room)

  value_none : (d : FeltDict V) (k : ℕ) → lookup d.mappings k ≡ none → value_at d k ≡ none
  value_none d k e = rw (value_at, e)

  value_some :
      (d : FeltDict V) (k i : ℕ) → lookup d.mappings k ≡ some i → value_at d k ≡ item d.elements i
  value_some d k i e = rw (value_at, e)

  -- A write to the element of a key changes the value at that key only.
  put-value_at :
      (d : FeltDict V) (buffer : Buffer V) (key i : ℕ) (value : V) (k : ℕ)
      → Dense d.mappings
      → d.elements ≡ some buffer
      → lookup d.mappings key ≡ some i
      → value_at (put d buffer i value) k ≡ (if key == k then some value else value_at d k)
  put-value_at d buffer key i value k dense at e = elim (Bool-cases (key == k)) [
    | inl f ↦
        let g : lookup d.mappings k ≡ some i = ap (lookup d.mappings) (sym (==→eq key k f)) ∙ e in
        value_some (put d buffer i value) k i g ∙ rw (f, eq→== i i refl)
    | inr f ↦ elim (Option-cases (lookup d.mappings k)) [
      | inl g ↦ value_none (put d buffer i value) k g ∙ rw f (sym (value_none d k g))
      | inr (j, g) ↦ elim (Bool-cases (j == i)) [
        | inl same ↦
            let one = lookup-injective d.mappings key k i dense e (g ∙ ap some (==→eq j i same)) in
            absurd (false≢true (sym f ∙ eq→== key k one))
        | inr differ ↦
            value_some (put d buffer i value) k j g
            ∙ rw (f, differ) (sym (value_some d k j g ∙ ap (λ b. item b j) at))
      ]
    ]
  ]

module _ {V : Type 0} (grow : ℕ → ℕ) (grows : (n : ℕ) → n < grow n) (dict : FeltDict V)
    (sound : Sound dict) where
  -- On a sound dictionary, for a hash map that has room for one more entry after it has grown, an
  -- access gives a sound dictionary, in which the key has the element that is pointed to, and the
  -- bytes of that element are within the buffer of elements, whether the key was there or not and
  -- whether the hash map has grown or not.
  pub dict_get-Access : (key : ℕ) → Access key (dict_get grow dict key)
  unfolding dict_get
  dict_get-Access key = elim (Option-cases (lookup dict.mappings key)) [
    | inl e ↦ elim (Bool-cases (length dict.mappings == dict.capacity)) [
      | inl full ↦
          rw (dict_get, e, full)
            (record {
              sound = record {
                dense = (refl, e, sound.dense);
                room = grows (length dict.mappings);
                allocated = refl;
              };
              within = allocated-Within dict.layout _ _ _ refl (grows (length dict.mappings));
              found = rw (eq→== key key refl);
            })
      | inr free ↦
          let more : length dict.mappings < dict.capacity = ground (arith, sound.room, free) in
          rw (dict_get, e, free)
            (record {
              sound = record {
                dense = (refl, e, sound.dense);
                room = omega (arith, more);
                allocated = sound.allocated;
              };
              within = allocated-Within dict.layout _ _ dict.elements sound.allocated more;
              found = rw (eq→== key key refl);
            })
    ]
    | inr (i, e) ↦
        rw (dict_get, e)
          (record {
            sound = record { dense = sound.dense; room = sound.room; allocated = sound.allocated };
            within =
                allocated-Within dict.layout _ _ dict.elements sound.allocated
                  (omega (arith, lookup-lt dict.mappings key i sound.dense e, sound.room));
            found = e;
          })
  ]

  -- Growing keeps the elements that there are.
  item-reallocated :
      (s new_size n j : ℕ)
      → j < n
      → (reallocated s (s * n) new_size dict.elements).items j ≡ item dict.elements j
  item-reallocated s new_size n j h = rw (le→leb (s * j + s) (s * n) (among s j n h))

  -- The dictionary in which the key is new.
  abbrev added : ℕ → FeltDict V
  added key = record {
    mappings = (key, length dict.mappings) ∷ dict.mappings;
    capacity =
        if not (length dict.mappings == dict.capacity)
        then dict.capacity
        else grow (length dict.mappings);
    layout = dict.layout;
    elements =
        if not (length dict.mappings == dict.capacity)
        then dict.elements
        else some (
            reallocated (stride dict.layout) (stride dict.layout * length dict.mappings)
              (stride dict.layout
                * (if not (length dict.mappings == dict.capacity)
                    then dict.capacity
                    else grow (length dict.mappings)))
              dict.elements);
    count = dict.count + 1;
  }

  -- An access to one key leaves what the dictionary holds at the others.
  kept : (key k : ℕ) → (key == k) ≡ false → value_at (dict_get grow dict key).0 k ≡ value_at dict k
  unfolding dict_get
  kept key k f = elim (Option-cases (lookup dict.mappings key)) [
    | inr (i, e) ↦ rw (dict_get, e)
    | inl e ↦
        rw (dict_get, e)
          (elim (Option-cases (lookup dict.mappings k)) [
            | inl g ↦ value_none (added key) k (rw f g) ∙ sym (value_none dict k g)
            | inr (j, g) ↦
                value_some (added key) k j (rw f g)
                ∙ elim (Bool-cases (length dict.mappings == dict.capacity)) [
                  | inr free ↦ rw free
                  | inl full ↦ rw full (
                      item-reallocated (stride dict.layout) 0 (length dict.mappings) j
                        (lookup-lt dict.mappings k j sound.dense g))
                ]
                ∙ sym (value_some dict k j g)
          ])
  ]

  -- On a sound dictionary, for a hash map that has room for one more entry after it has grown,
  -- after an access to a key a write through its pointer goes into the buffer, and then the
  -- dictionary holds the written value at the key, and at every other key what it held before the
  -- access.
  pub dict_get-store :
      (key : ℕ) (value : V) (k : ℕ)
      → (after : FeltDict V) × (store (dict_get grow dict key).0 (dict_get grow dict key).1 value
          ≡ some after)
        × (value_at after k ≡ (if key == k then some value else value_at dict k))
  dict_get-store key value k =
      let r = dict_get grow dict key in
      let got = dict_get-Access key in
      let w = got.within in
      (
        put r.0 w.buffer r.1 value,
        store-put r.0 r.1 value w,
        put-value_at r.0 w.buffer key r.1 value k got.sound.dense w.buffer_eq got.found
            ∙ elim (Bool-cases (key == k)) [ inl f ↦ rw f | inr f ↦ rw f (kept key k f) ],
      )

-- ===== src/Emu/Items.antt =====
-- The vectors of values: `len`, `get`, `push`, `split_off`, and the type of the items of an array.
use cairo_native.Prelude.{
  ℕ, zero, suc, ◌+◌, ◌≡◌, ◌≤◌, ◌<◌, refl, ap, ◌∙◌, arith, Option, none, some,
}
use cairo_native.Emu.Value.{ValueList, nil, cons, Value}

unfoldable pub length : ValueList → ℕ
length nil = 0
length (cons v vs) = suc (length vs)

-- `get(index).cloned()`
unfoldable pub get_elem? : ValueList → ℕ → Option Value
get_elem? nil n = none
get_elem? (cons v vs) zero = some v
get_elem? (cons v vs) (suc n) = get_elem? vs n

unfoldable pub append : ValueList → ValueList → ValueList
append nil ws = ws
append (cons v vs) ws = cons v (append vs ws)

abbrev pub push : ValueList → Value → ValueList
push vs v = append vs (cons v nil)

-- `split_off(n)` leaves the first n items and gives the others.
unfoldable pub take : ℕ → ValueList → ValueList
take zero vs = nil
take (suc n) nil = nil
take (suc n) (cons v vs) = cons v (take n vs)

unfoldable pub drop : ℕ → ValueList → ValueList
drop zero vs = vs
drop (suc n) nil = nil
drop (suc n) (cons v vs) = drop n vs

pub append-take-drop : (n : ℕ) (vs : ValueList) → append (take n vs) (drop n vs) ≡ vs
unfolding take drop append
append-take-drop zero vs = refl
append-take-drop (suc n) nil = refl
append-take-drop (suc n) (cons v vs) = ap (cons v) (append-take-drop n vs)

pub length-push : (vs : ValueList) (v : Value) → length (push vs v) ≡ suc (length vs)
unfolding length append
length-push nil v = refl
length-push (cons w vs) v = ap suc (length-push vs v)

pub get_elem?-push : (vs : ValueList) (v : Value) → get_elem? (push vs v) (length vs) ≡ some v
unfolding get_elem? append length
get_elem?-push nil v = refl
get_elem?-push (cons w vs) v = get_elem?-push vs v

pub take-push : (vs : ValueList) (v : Value) → take (length vs) (push vs v) ≡ vs
unfolding take append length
take-push nil v = refl
take-push (cons w vs) v = ap (cons w) (take-push vs v)

pub drop-push : (vs : ValueList) (v : Value) → drop (length vs) (push vs v) ≡ cons v nil
unfolding drop append length
drop-push nil v = refl
drop-push (cons w vs) v = drop-push vs v

pub length-take : (n : ℕ) (vs : ValueList) → n ≤ length vs → length (take n vs) ≡ n
unfolding take length
length-take zero vs h = refl
length-take (suc n) nil h = absurd (omega arith)
length-take (suc n) (cons v vs) h = ap suc (length-take n vs (omega arith))

pub get_elem?-take :
    (n : ℕ) (vs : ValueList) (i : ℕ) → i < n → get_elem? (take n vs) i ≡ get_elem? vs i
unfolding take get_elem?
get_elem?-take zero vs i h = absurd (omega (arith, h))
get_elem?-take (suc n) nil i h = refl
get_elem?-take (suc n) (cons v vs) zero h = refl
get_elem?-take (suc n) (cons v vs) (suc i) h = get_elem?-take n vs i (omega arith)

pub get_elem?-drop :
    (n : ℕ) (vs : ValueList) (i : ℕ) → get_elem? (drop n vs) i ≡ get_elem? vs (n + i)
unfolding drop get_elem?
get_elem?-drop zero vs i = ap (get_elem? vs) (omega arith)
get_elem?-drop (suc n) nil i = refl
get_elem?-drop (suc n) (cons v vs) i =
    let e : suc (n + i) ≡ suc n + i = omega arith in
    get_elem?-drop n vs i ∙ ap (get_elem? (cons v vs)) e

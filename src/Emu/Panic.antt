-- ===== src/Emu/Panic.antt =====
-- Panics: a computation of the interpreter gives a value or stops the process.
use cairo_native.Prelude.{Bool, true, false, Option, none, some}

infixl 5 ◌>>=◌ ◌>>◌
abbrev pub ◌>>=◌ {ℓ κ} : {S : Type ℓ} {T : Type κ} → Option S → (S → Option T) → Option T
r >>= next = elim r [ none ↦ none | some value ↦ next value ]

abbrev pub ◌>>◌ {κ} : {T : Type κ} → Option (Unit {0}) → Option T → Option T
first >> rest = elim first [ none ↦ none | some _ ↦ rest ]

-- `assert!`
abbrev pub assert : Bool → Option (Unit {0})
assert false = none
assert true = some tt

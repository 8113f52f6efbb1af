-- ===== src/Error.antt =====
-- src/error.rs: the errors of the crate as values, and the result type with its do notation.
use cairo_native.Prelude.{ℕ, Bool, true, false, ◌≡◌, ◌≢◌, refl}

-- `SierraAssertError`
pub data SierraAssertError : Type 0 where
  cast range bad_type_init bad_type_info impossible_circuit : SierraAssertError

-- `Error`, without the payloads that hold only text, and without what input and output raise. An
-- error that wraps one of another module stands as that one.
pub data Error : Type 0 where
  layout_error : Error
  mlir_error : Error
  layout_error_polyfill : Error
  try_from_int_error : Error
  parse_attribute_error : Error
  missing_metadata : Error
  sierra_assert : SierraAssertError → Error
  native_assert : Error
  const_data_mismatch : Error
  integer_like_type_expected : Error
  integer_conversion : Error
  not_enough_gas : (required available : ℕ) → Error
  missing_gas_wallet inconsistent_gas_wallet gas_wallet_error : Error
  -- Not an error of the source: the process stops.
  panic : Error

-- A failure carries one of these errors; `?` in the source is the arrow of a `do` block.
pub data Result {ℓ} (A : Type ℓ) : Type ℓ where
  err : Error → Result A
  ok : A → Result A

infixl 5 ◌>>◌ ◌>>=◌
abbrev pub ◌>>=◌ {ℓ ι} : {S : Type ℓ} {T : Type ι} → Result S → (S → Result T) → Result T
r >>= next = elim r [ err e ↦ err e | ok value ↦ next value ]

abbrev pub ◌>>◌ {ι} : {T : Type ι} → Result (Unit {0}) → Result T → Result T
first >> rest = elim first [ err e ↦ err e | ok _ ↦ rest ]

-- The macro `native_assert!`: goes on if the condition holds.
abbrev pub ensure : Bool → Result (Unit {0})
ensure false = err native_assert
ensure true = ok tt

pub not_ok {ℓ} : {A : Type ℓ} {e : Error} {a : A} → err e ≢ ok a
not_ok h = cc

pub ok-injective {ℓ} : {A : Type ℓ} {a b : A} → ok a ≡ ok b → a ≡ b
ok-injective h = cc

-- A chain that succeeds has succeeded at its first step.
pub bind-ok {ℓ ι} :
    {S : Type ℓ} {T : Type ι} (r : Result S) {next : S → Result T} {b : T}
    → (r >>= next) ≡ ok b
    → (a : S) × (r ≡ ok a) × (next a ≡ ok b)
bind-ok (err e) h = absurd (not_ok h)
bind-ok (ok a) h = (a, refl, h)

-- ===== src/Starknet/Syscall.antt =====
-- System calls as computations: a call works on the state of the handler and the gas that is left,
-- and either stops the process (`none`) or leaves both behind, with a result or with the felts of
-- an error (`SyscallResult`).
use cairo_native.Prelude.{
  ℕ, ◌-◌, ◌≡◌, refl, Bool-cases, inl, inr, ltb, Bool, true, false, if◌then◌else◌, List, [], ◌∷◌,
  Option, none, some,
}

pub data SyscallResult {ℓ} (A : Type ℓ) : Type ℓ where
  ok : A → SyscallResult A
  err : List ℕ → SyscallResult A

abbrev pub Syscall : Type 0 → Type 0 → Type 0
Syscall S A = S → ℕ → Option (S × ℕ × SyscallResult A)

-- Goes on after a result; an error is passed on with the state that it leaves.
abbrev pub after :
    {S A B : Type 0}
    → (A → Syscall S B)
    → S
    → ℕ
    → SyscallResult A
    → Option (S × ℕ × SyscallResult B)
after next s gas (ok a) = next a s gas
after next s gas (err e) = some (s, gas, err e)

abbrev pub carry :
    {S A B : Type 0}
    → (A → Syscall S B)
    → Option (S × ℕ × SyscallResult A)
    → Option (S × ℕ × SyscallResult B)
carry next none = none
carry next (some (s, gas, result)) = after next s gas result

infixl 5 ◌>>◌ ◌>>=◌
abbrev pub ◌>>=◌ : {S A B : Type 0} → Syscall S A → (A → Syscall S B) → Syscall S B
◌>>=◌ m next s gas = carry next (m s gas)

abbrev pub ◌>>◌ : {S B : Type 0} → Syscall S (Unit {0}) → Syscall S B → Syscall S B
m >> next = m >>= λ _. next

abbrev pub done : {S A : Type 0} → A → Syscall S A
done a s gas = some (s, gas, ok a)

abbrev pub fail : {S A : Type 0} → List ℕ → Syscall S A
fail e s gas = some (s, gas, err e)

-- `expect` and `unwrap`
abbrev pub expect : {S A : Type 0} → Option A → Syscall S A
expect none s gas = none
expect (some a) s gas = some (s, gas, ok a)

abbrev pub ok_or : {S A : Type 0} → Option A → List ℕ → Syscall S A
ok_or none e s gas = some (s, gas, err e)
ok_or (some a) e s gas = some (s, gas, ok a)

-- An early return of an error, unless the condition holds.
abbrev pub require : {S : Type 0} → Bool → List ℕ → Syscall S (Unit {0})
require true e s gas = some (s, gas, ok tt)
require false e s gas = some (s, gas, err e)

abbrev pub get : {S : Type 0} → Syscall S S
get s gas = some (s, gas, ok s)

abbrev pub modify : {S : Type 0} → (S → S) → Syscall S (Unit {0})
modify f s gas = some (f s, gas, ok tt)

-- A match on the result of a call: its error is a value too.
abbrev pub attempted :
    {S A : Type 0}
    → Option (S × ℕ × SyscallResult A)
    → Option (S × ℕ × SyscallResult (SyscallResult A))
attempted none = none
attempted (some (s, gas, result)) = some (s, gas, ok result)

abbrev pub attempt : {S A : Type 0} → Syscall S A → Syscall S (SyscallResult A)
attempt m s gas = attempted (m s gas)

-- "Syscall out of gas" as a felt.
abbrev pub out_of_gas : ℕ
out_of_gas = 7271647275966422122720959977524812442984819

unfoldable pub deduct_gas : {S : Type 0} → ℕ → Syscall S (Unit {0})
deduct_gas price s gas =
    if ltb gas price then some (s, gas, err (out_of_gas ∷ [])) else some (s, gas - price, ok tt)

-- A call that is paid for first: without enough gas it fails and leaves all as it was.
pub deduct_gas-then :
    {S A : Type 0} (price : ℕ) (next : Syscall S A) (s : S) (gas : ℕ)
    → (deduct_gas price >> next) s gas
      ≡ (if ltb gas price then some (s, gas, err (out_of_gas ∷ [])) else next s (gas - price))
unfolding deduct_gas
deduct_gas-then price next s gas = elim (Bool-cases (ltb gas price)) [
  | inl e ↦ rw e refl
  | inr e ↦ rw e refl
]

pub require-then :
    {S A : Type 0} (b : Bool) (e : List ℕ) (next : Syscall S A) (s : S) (gas : ℕ)
    → (require b e >> next) s gas ≡ (if b then next s gas else some (s, gas, err e))
require-then true e next s gas = refl
require-then false e next s gas = refl

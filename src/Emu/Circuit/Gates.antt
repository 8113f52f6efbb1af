-- ===== src/Emu/Circuit/Gates.antt =====
-- debug_utils/sierra-emu/src/vm/circuit.rs: the loop of `eval_eval` over the gates. Each gate reads
-- and writes slots, which have a value or none yet. Both loops are recursions on their gates.
use cairo_native.Prelude.{
  ℕ, zero, suc, ◌+◌, ◌-◌, ◌*◌, ◌/◌, ◌%◌, ltb, Bool, true, false, if◌then◌else◌, List, [], ◌∷◌,
  Option, none, some,
}
use cairo_native.Emu.Panic.{◌>>=◌, ◌>>◌, assert}
use cairo_native.Emu.Vm.{nth}

-- `GateOffsets` of Sierra.
pub record Gate : Type 0 where
  pub lhs : ℕ
  pub rhs : ℕ
  pub output : ℕ

-- `CircuitInfo` of Sierra, with the number of its values.
pub record CircuitInfo : Type 0 where
  pub n_inputs : ℕ
  pub n_values : ℕ
  pub add_offsets : List Gate
  pub mul_offsets : List Gate

-- num-bigint's `modinv` and the greatest common divisor.
pub record Field : Type 0 where
  pub modinv : ℕ → ℕ → Option ℕ
  pub gcd : ℕ → ℕ → ℕ

abbrev pub Slots : Type 0
Slots = List (Option ℕ)

-- An index beyond the end panics.
abbrev pub assign : Slots → ℕ → ℕ → Option Slots
assign [] i x = none
assign (s ∷ slots) zero x = some (some x ∷ slots)
assign (s ∷ slots) (suc i) x = do slots' ← assign slots i x; some (s ∷ slots')

abbrev pub length : List ℕ → ℕ
length [] = 0
length (x ∷ xs) = suc (length xs)

abbrev pub drop : ℕ → Slots → Slots
drop zero slots = slots
drop (suc n) [] = []
drop (suc n) (s ∷ slots) = drop n slots

-- `collect::<Option<Vec<_>>>().expect(..)`
abbrev pub collected : Slots → Option (List ℕ)
collected [] = some []
collected (none ∷ slots) = none
collected (some x ∷ slots) = do xs ← collected slots; some (x ∷ xs)

abbrev pub empty : ℕ → Slots
empty zero = []
empty (suc n) = none ∷ empty n

-- The inputs are written from slot 1 on.
abbrev pub fill : List ℕ → Slots → Option Slots
fill [] slots = some slots
fill (x ∷ xs) [] = none
fill (x ∷ xs) (s ∷ slots) = do slots' ← fill xs slots; some (some x ∷ slots')

unfoldable pub first_outputs : CircuitInfo → List ℕ → Option Slots
first_outputs info inputs = do
  slots ← fill inputs (empty (info.n_inputs + info.n_values))
  some (some 1 ∷ slots)

-- How a gate that adds goes: written, or not yet (`break`).
pub data Step : Type 0 where
  wrote : Slots → Step
  wait : Step

abbrev pub written : Option Slots → Option Step
written none = none
written (some slots) = some (wrote slots)

-- The match on both operands; a gate that subtracts has its output in `lhs`.
unfoldable pub add_values : ℕ → Gate → Slots → Option ℕ → Option ℕ → Option Step
add_values modulus gate slots (some l) (some r) =
    written (assign slots gate.output ((l + r) % modulus))
add_values modulus gate slots none (some r) = do
  found ← nth slots gate.output
  elim found [
    | none ↦ some wait
    | some res ↦ do
      assert (if ltb (res + modulus) r then false else true)
      written (assign slots gate.lhs ((res + modulus - r) % modulus))
  ]
add_values modulus gate slots _ none = some wait

unfoldable pub add_step : ℕ → Gate → Slots → Option Step
unfolding add_values
add_step modulus gate slots = do
  lhs ← nth slots gate.lhs
  rhs ← nth slots gate.rhs
  add_values modulus gate slots lhs rhs

-- The inner loop: the gates that are left, and the slots.
unfoldable pub run_adds : ℕ → List Gate → Slots → Option (List Gate × Slots)
unfolding add_step
run_adds modulus [] slots = some ([], slots)
run_adds modulus (gate ∷ gates) slots = elim (add_step modulus gate slots) [
  | none ↦ none
  | some wait ↦ some (gate ∷ gates, slots)
  | some (wrote slots') ↦ run_adds modulus gates slots'
]

abbrev pub with_success : Bool → Option Slots → Option (Bool × Slots)
with_success success none = none
with_success success (some slots) = some (success, slots)

-- A number without an inverse gets a nullifier, and the circuit fails.
unfoldable pub find_nullifier : Field → ℕ → ℕ → ℕ
find_nullifier field num modulus = modulus / field.gcd num modulus

unfoldable pub invert : Field → ℕ → ℕ → Slots → ℕ → Option ℕ → Option (Bool × Slots)
unfolding find_nullifier
invert field modulus lhs slots r (some inverse) = with_success true (assign slots lhs inverse)
invert field modulus lhs slots r none =
    with_success false (assign slots lhs (find_nullifier field r modulus))

-- A gate that inverts has its output in `lhs`.
unfoldable pub mul_values : Field → ℕ → Gate → Slots → Option ℕ → Option ℕ → Option (Bool × Slots)
unfolding invert
mul_values field modulus gate slots (some l) (some r) =
    with_success true (assign slots gate.output (l * r % modulus))
mul_values field modulus gate slots none (some r) =
    invert field modulus gate.lhs slots r (field.modinv r modulus)
mul_values field modulus gate slots _ none = none

unfoldable pub mul_step : Field → ℕ → Gate → Slots → Option (Bool × Slots)
unfolding mul_values
mul_step field modulus gate slots = do
  lhs ← nth slots gate.lhs
  rhs ← nth slots gate.rhs
  mul_values field modulus gate slots lhs rhs

-- The outer loop: whether the circuit succeeds, and the slots.
unfoldable pub run_gates :
    Field → ℕ → List Gate → (muls : List Gate) → Slots → Option (Bool × Slots)
unfolding run_adds mul_step
run_gates field modulus adds [] slots = do
  (adds', slots') ← run_adds modulus adds slots
  some (true, slots')
run_gates field modulus adds (gate ∷ muls) slots = do
  (adds', slots') ← run_adds modulus adds slots
  (success, slots'') ← mul_step field modulus gate slots'
  let rest = run_gates field modulus adds' muls slots''
  if success then rest else some (false, slots'')

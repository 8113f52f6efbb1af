-- ===== src/Emu/Circuit/Reduced.antt =====
-- debug_utils/sierra-emu/src/vm/circuit.rs: the outputs of a circuit are reduced.
use cairo_native.Prelude.{
  ℕ, zero, suc, ◌≤◌, ◌+◌, ◌-◌, ◌*◌, ◌%◌, ◌≡◌, ◌≢◌, ◌<◌, refl, sym, ap, ◌∙◌, arith, ltb, Bool, true,
  false, Bool-cases, Option-cases, inl, inr, List, [], ◌∷◌, Option, none, some, if◌then◌else◌,
}
use mathlib.Core.Path.{subst}
use native.Mathlib.Nat.{mod-lt}
use cairo_native.Emu.Panic.{◌>>=◌, ◌>>◌, assert}
use cairo_native.Emu.Value.{Value, EvalAction, normal_branch, unit}
use cairo_native.Emu.Vm.{nth}
use cairo_native.Emu.Circuit.{eval_eval, evaluated}
use cairo_native.Emu.Circuit.Gates.{
  Gate, CircuitInfo, Field, Slots, Step, wrote, wait, assign, drop, collected, empty, fill, length,
  first_outputs, add_values, add_step, run_adds, invert, mul_values, mul_step, run_gates, written,
  with_success,
}

abbrev Small : ℕ → Option ℕ → Type 0
Small m none = Unit
Small m (some x) = x < m

-- The slots behind the first `n` are empty or below `m`.
abbrev Reduced : ℕ → ℕ → Slots → Type 0
Reduced m n [] = Unit
Reduced m zero (s ∷ slots) = Small m s × Reduced m zero slots
Reduced m (suc n) (s ∷ slots) = Reduced m n slots

abbrev size : Slots → ℕ
size [] = 0
size (s ∷ slots) = suc (size slots)

abbrev pub AllBelow : ℕ → List ℕ → Type 0
AllBelow m [] = Unit
AllBelow m (x ∷ xs) = (x < m) × AllBelow m xs

not_some {ℓ} : {A : Type ℓ} {a : A} → none ≢ some a
not_some h = cc

some-injective {ℓ} : {A : Type ℓ} {a b : A} → some a ≡ some b → a ≡ b
some-injective h = cc

-- What a computation of slots gives, unless it panics.
abbrev Keeps : ℕ → ℕ → ℕ → Option Slots → Type 0
Keeps m n k none = Unit
Keeps m n k (some slots) = Reduced m n slots × (size slots ≡ k)

assign-Keeps :
    (m n : ℕ) (slots : Slots) (i x : ℕ)
    → x < m
    → Reduced m n slots
    → Keeps m n (size slots) (assign slots i x)
assign-Keeps m n [] i x h r = tt
assign-Keeps m zero (s ∷ slots) zero x h (p, r) = ((h, r), refl)
assign-Keeps m (suc n) (s ∷ slots) zero x h r = (r, refl)
assign-Keeps m zero (s ∷ slots) (suc i) x h (p, r) =
    go (assign slots i x) (assign-Keeps m zero slots i x h r)
  where
    go :
        (o : Option Slots)
        → Keeps m zero (size slots) o
        → Keeps m zero (suc (size slots)) (o >>= λ slots'. some (s ∷ slots'))
    go none k = tt
    go (some slots') (r', e) = ((p, r'), ap suc e)
assign-Keeps m (suc n) (s ∷ slots) (suc i) x h r =
    go (assign slots i x) (assign-Keeps m n slots i x h r)
  where
    go :
        (o : Option Slots)
        → Keeps m n (size slots) o
        → Keeps m (suc n) (suc (size slots)) (o >>= λ slots'. some (s ∷ slots'))
    go none k = tt
    go (some slots') (r', e) = (r', ap suc e)

abbrev StepKeeps : ℕ → ℕ → ℕ → Option Step → Type 0
StepKeeps m n k none = Unit
StepKeeps m n k (some wait) = Unit
StepKeeps m n k (some (wrote slots)) = Reduced m n slots × (size slots ≡ k)

written-StepKeeps : (m n k : ℕ) (o : Option Slots) → Keeps m n k o → StepKeeps m n k (written o)
written-StepKeeps m n k none h = tt
written-StepKeeps m n k (some slots) h = h

-- The gates that are left do not matter.
abbrev RunKeeps : {A : Type 0} → ℕ → ℕ → ℕ → Option (A × Slots) → Type 0
RunKeeps m n k none = Unit
RunKeeps m n k (some (a, slots)) = Reduced m n slots × (size slots ≡ k)

module _ {m : ℕ} (positive : 0 < m) (n : ℕ) where
  add_values-StepKeeps :
      (gate : Gate) (slots : Slots) (lhs rhs : Option ℕ)
      → Reduced m n slots
      → StepKeeps m n (size slots) (add_values m gate slots lhs rhs)
  unfolding add_values
  add_values-StepKeeps gate slots (some l) (some r) h =
      written-StepKeeps m n _ _ (assign-Keeps m n slots gate.output _ (mod-lt (l + r) positive) h)
  add_values-StepKeeps gate slots none (some r) h = elim (Option-cases (nth slots gate.output)) [
    | inl e ↦ rw e tt
    | inr (found, e) ↦ rw e (subtracted found)
  ]
    where
      subtracted :
          (found : Option ℕ)
          → StepKeeps m n (size slots) (elim found [
            | none ↦ some wait
            | some res ↦ do
              assert (if ltb (res + m) r then false else true)
              written (assign slots gate.lhs ((res + m - r) % m))
          ])
      subtracted none = tt
      subtracted (some res) = elim (Bool-cases (ltb (res + m) r)) [
        | inl f ↦ rw f tt
        | inr f ↦ rw f (
            written-StepKeeps m n _ _
              (assign-Keeps m n slots gate.lhs _ (mod-lt (res + m - r) positive) h))
      ]
  add_values-StepKeeps gate slots (some l) none h = tt
  add_values-StepKeeps gate slots none none h = tt

  add_step-StepKeeps :
      (gate : Gate) (slots : Slots)
      → Reduced m n slots
      → StepKeeps m n (size slots) (add_step m gate slots)
  unfolding add_step
  add_step-StepKeeps gate slots h = elim (Option-cases (nth slots gate.lhs)) [
    | inl e ↦ rw e tt
    | inr (lhs, e) ↦ elim (Option-cases (nth slots gate.rhs)) [
      | inl f ↦ rw (e, f) tt
      | inr (rhs, f) ↦ rw (e, f) (add_values-StepKeeps gate slots lhs rhs h)
    ]
  ]

  run_adds-RunKeeps :
      (gates : List Gate) (slots : Slots)
      → Reduced m n slots
      → RunKeeps m n (size slots) (run_adds m gates slots)
  unfolding run_adds
  run_adds-RunKeeps [] slots h = (h, refl)
  run_adds-RunKeeps (gate ∷ gates) slots h =
      go (run_adds-RunKeeps gates) (add_step m gate slots) (add_step-StepKeeps gate slots h)
    where
      go :
          ((slots' : Slots)
            → Reduced m n slots'
            → RunKeeps m n (size slots') (run_adds m gates slots'))
          → (step : Option Step) → StepKeeps m n (size slots) step
          → RunKeeps m n (size slots) (elim step [
            | none ↦ none
            | some wait ↦ some (gate ∷ gates, slots)
            | some (wrote slots') ↦ run_adds m gates slots'
          ])
      go later none k = tt
      go later (some wait) k = (h, refl)
      go later (some (wrote slots')) (r, e) =
          subst (λ k. RunKeeps m n k (run_adds m gates slots')) e (later slots' r)

-- A gate that multiplies or inverts, when the circuit goes on after it.
abbrev GoesOn : ℕ → ℕ → ℕ → Option (Bool × Slots) → Type 0
GoesOn m n k none = Unit
GoesOn m n k (some (false, slots)) = Unit
GoesOn m n k (some (true, slots)) = Reduced m n slots × (size slots ≡ k)

with_success-GoesOn :
    (m n k : ℕ) (o : Option Slots) → Keeps m n k o → GoesOn m n k (with_success true o)
with_success-GoesOn m n k none h = tt
with_success-GoesOn m n k (some slots) h = h

fails-GoesOn : (m n k : ℕ) (o : Option Slots) → GoesOn m n k (with_success false o)
fails-GoesOn m n k none = tt
fails-GoesOn m n k (some slots) = tt

module _ {m : ℕ} (positive : 0 < m) (n : ℕ) (field : Field)
    (inverse_lt : (r x : ℕ) → field.modinv r m ≡ some x → x < m) where
  invert-GoesOn :
      (lhs : ℕ) (slots : Slots) (r : ℕ)
      → Reduced m n slots
      → GoesOn m n (size slots) (invert field m lhs slots r (field.modinv r m))
  unfolding invert
  invert-GoesOn lhs slots r h = elim (Option-cases (field.modinv r m)) [
    | inl e ↦ rw e (fails-GoesOn m n _ _)
    | inr (x, e) ↦
        rw e (with_success-GoesOn m n _ _ (assign-Keeps m n slots lhs x (inverse_lt r x e) h))
  ]

  mul_values-GoesOn :
      (gate : Gate) (slots : Slots) (lhs rhs : Option ℕ)
      → Reduced m n slots
      → GoesOn m n (size slots) (mul_values field m gate slots lhs rhs)
  unfolding mul_values
  mul_values-GoesOn gate slots (some l) (some r) h =
      with_success-GoesOn m n _ _ (assign-Keeps m n slots gate.output _ (mod-lt (l * r) positive) h)
  mul_values-GoesOn gate slots none (some r) h = invert-GoesOn gate.lhs slots r h
  mul_values-GoesOn gate slots (some l) none h = tt
  mul_values-GoesOn gate slots none none h = tt

  mul_step-GoesOn :
      (gate : Gate) (slots : Slots)
      → Reduced m n slots
      → GoesOn m n (size slots) (mul_step field m gate slots)
  unfolding mul_step
  mul_step-GoesOn gate slots h = elim (Option-cases (nth slots gate.lhs)) [
    | inl e ↦ rw e tt
    | inr (lhs, e) ↦ elim (Option-cases (nth slots gate.rhs)) [
      | inl f ↦ rw (e, f) tt
      | inr (rhs, f) ↦ rw (e, f) (mul_values-GoesOn gate slots lhs rhs h)
    ]
  ]

  run_gates-GoesOn :
      (adds muls : List Gate) (slots : Slots)
      → Reduced m n slots
      → GoesOn m n (size slots) (run_gates field m adds muls slots)
  unfolding run_gates
  run_gates-GoesOn adds [] slots h =
      go (run_adds m adds slots) (run_adds-RunKeeps positive n adds slots h)
    where
      go :
          (o : Option (List Gate × Slots))
          → RunKeeps m n (size slots) o
          → GoesOn m n (size slots) (o >>= λ p. some (true, p.1))
      go none k = tt
      go (some (adds', slots')) k = k
  run_gates-GoesOn adds (gate ∷ muls) slots h = elim (Option-cases (run_adds m adds slots)) [
    | inl e ↦ rw e tt
    | inr ((adds', slots'), e) ↦
        let (r, k) =
          subst (RunKeeps m n (size slots)) e (run_adds-RunKeeps positive n adds slots h) in
        elim (Option-cases (mul_step field m gate slots')) [
          | inl f ↦ rw (e, f) tt
          | inr ((false, slots''), f) ↦ rw (e, f) tt
          | inr ((true, slots''), f) ↦
              let (r', k') = subst (GoesOn m n (size slots')) f (mul_step-GoesOn gate slots' r) in
              rw (e, f)
                (subst (λ k. GoesOn m n k (run_gates field m adds' muls slots'')) (k' ∙ k)
                  (run_gates-GoesOn adds' muls slots'' r'))
        ]
  ]

-- The first slots, and the values at the end.
empty-Reduced : (m n k : ℕ) → Reduced m n (empty k)
empty-Reduced m n zero = tt
empty-Reduced m zero (suc k) = (tt, empty-Reduced m zero k)
empty-Reduced m (suc n) (suc k) = empty-Reduced m n k

size-empty : (k : ℕ) → size (empty k) ≡ k
size-empty zero = refl
size-empty (suc k) = ap suc (size-empty k)

fill-Keeps :
    (m n : ℕ) (inputs : List ℕ) (slots : Slots)
    → length inputs ≤ n
    → Reduced m n slots
    → Keeps m n (size slots) (fill inputs slots)
fill-Keeps m n [] slots few h = (h, refl)
fill-Keeps m n (x ∷ xs) [] few h = tt
fill-Keeps m zero (x ∷ xs) (s ∷ slots) few h = absurd (omega (arith, few))
fill-Keeps m (suc n) (x ∷ xs) (s ∷ slots) few h =
    go (fill xs slots) (fill-Keeps m n xs slots (omega (arith, few)) h)
  where
    go :
        (o : Option Slots)
        → Keeps m n (size slots) o
        → Keeps m (suc n) (suc (size slots)) (o >>= λ slots'. some (some x ∷ slots'))
    go none k = tt
    go (some slots') (r', e) = (r', ap suc e)

first_outputs-Keeps :
    (m : ℕ) (info : CircuitInfo) (inputs : List ℕ)
    → length inputs ≤ info.n_inputs
    → Keeps m (suc info.n_inputs) (suc (info.n_inputs + info.n_values)) (first_outputs info inputs)
unfolding first_outputs
first_outputs-Keeps m info inputs few = go (fill inputs (empty (info.n_inputs + info.n_values))) (
    fill-Keeps m info.n_inputs inputs (empty (info.n_inputs + info.n_values)) few
      (empty-Reduced m info.n_inputs (info.n_inputs + info.n_values)))
  where
    go :
        (o : Option Slots)
        → Keeps m info.n_inputs (size (empty (info.n_inputs + info.n_values))) o
        → Keeps m
            (suc info.n_inputs)
            (suc (info.n_inputs + info.n_values))
            (o >>= λ slots. some (some 1 ∷ slots))
    go none k = tt
    go (some slots) (r, e) = (r, ap suc (e ∙ size-empty (info.n_inputs + info.n_values)))

collected-AllBelow :
    (m n : ℕ) (slots : Slots) (xs : List ℕ)
    → Reduced m n slots
    → n ≤ size slots
    → collected (drop n slots) ≡ some xs
    → AllBelow m xs × (n + length xs ≡ size slots)
collected-AllBelow m zero [] xs h le k = rw (sym (some-injective k)) (tt, refl)
collected-AllBelow m zero (none ∷ slots) xs h le k = absurd (not_some k)
collected-AllBelow m zero (some x ∷ slots) xs (p, h) le k = elim (Option-cases (collected slots)) [
  | inl e ↦ absurd (not_some (rw e at k))
  | inr (ys, e) ↦
      let (below, sum) = collected-AllBelow m zero slots ys h (omega arith) e in
      rw (sym (some-injective (rw e at k))) ((p, below), omega (arith, sum))
]
collected-AllBelow m (suc n) [] xs h le k = absurd (omega (arith, le))
collected-AllBelow m (suc n) (s ∷ slots) xs h le k =
    let (below, sum) = collected-AllBelow m n slots xs h (omega (arith, le)) k in
    (below, omega (arith, sum))

-- What a circuit gives, unless it panics: values below the modulus, one for each of its offsets, or
-- the branch of a failure.
abbrev pub CircuitOutcome : CircuitInfo → ℕ → Option EvalAction → Type 0
CircuitOutcome info m none = Unit
CircuitOutcome info m (some (normal_branch zero (u ∷ v ∷ Value.circuit_outputs xs modulus ∷ []))) =
    AllBelow m xs × (length xs ≡ info.n_values) × (modulus ≡ m)
CircuitOutcome info m (some (normal_branch (suc zero) (u ∷ v ∷ w ∷ t ∷ []))) = Unit
CircuitOutcome info m _ = ⊥

module _ (info : CircuitInfo) (field : Field) {m : ℕ} (positive : 0 < m)
    (inverse_lt : (r x : ℕ) → field.modinv r m ≡ some x → x < m) where
  evaluated-CircuitOutcome :
      (slots : Slots)
      → Reduced m (suc info.n_inputs) slots
      → size slots ≡ suc (info.n_inputs + info.n_values)
      → CircuitOutcome info m (evaluated info m (true, slots))
  evaluated-CircuitOutcome slots h e =
      elim (Option-cases (collected (drop (suc info.n_inputs) slots))) [
        | inl f ↦ rw f tt
        | inr (xs, f) ↦
            let (below, sum) =
              collected-AllBelow m (suc info.n_inputs) slots xs h (omega (arith, e)) f in
            rw f (below, omega (arith, e, sum), refl)
      ]

  -- For a modulus that is not zero, an inverse that is below it, and inputs that are no more than
  -- the circuit takes and may be above the modulus: the evaluation of a circuit panics, takes the
  -- branch of a failure, or takes the branch of a success with as many outputs as the circuit has
  -- values, each of them below the modulus.
  pub eval_eval-CircuitOutcome :
      (inputs : List ℕ) (v v' : Value)
      → length inputs ≤ info.n_inputs
      → CircuitOutcome info m (
          eval_eval info field
            (unit ∷ unit ∷ unit ∷ Value.circuit inputs ∷ Value.circuit_modulus m ∷ v ∷ v' ∷ []))
  unfolding eval_eval
  eval_eval-CircuitOutcome inputs v v' few = elim (Option-cases (first_outputs info inputs)) [
    | inl e ↦ rw e tt
    | inr (slots, e) ↦
        let n = suc info.n_inputs in
        let k = suc (info.n_inputs + info.n_values) in
        let (r, size_eq) = subst (Keeps m n k) e (first_outputs-Keeps m info inputs few) in
        let goes_on =
          run_gates-GoesOn positive n field inverse_lt info.add_offsets info.mul_offsets slots r in
        elim (Option-cases (run_gates field m info.add_offsets info.mul_offsets slots)) [
          | inl f ↦ rw (e, f) tt
          | inr ((false, slots'), f) ↦ rw (e, f) tt
          | inr ((true, slots'), f) ↦
              let (r', k') = subst (GoesOn m n (size slots)) f goes_on in
              rw (e, f) (evaluated-CircuitOutcome slots' r' (k' ∙ size_eq))
        ]
  ]

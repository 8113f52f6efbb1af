-- ===== src/Emu/Circuit/Examples.antt =====
-- A circuit of two inputs modulo 7: slot 3 is their sum, slot 4 the product of the sum and the
-- first input, slot 5 the difference of both.
use cairo_native.Prelude.{
  ℕ, ◌+◌, ◌%◌, ◌^◌, ◌≡◌, ◌<◌, ◌==◌, if◌then◌else◌, refl, arith, Option, none, some, [], ◌∷◌,
  Bool-cases, inl, inr,
}
use cairo_native.Emu.Value.{Value, normal_branch, unit}
use cairo_native.Emu.Circuit.{eval_eval}
use cairo_native.Emu.Circuit.Gates.{
  Gate, CircuitInfo, Field, first_outputs, run_gates, run_adds, mul_step, add_step, add_values,
  mul_values,
}
use cairo_native.Emu.Circuit.Reduced.{CircuitOutcome, eval_eval-CircuitOutcome}
use cairo_native.Emu.Circuit.Limbs.{Reenters, u384_to_struct-Reenters}

abbrev gate : ℕ → ℕ → ℕ → Gate
gate lhs rhs output = record { lhs = lhs; rhs = rhs; output = output }

abbrev circuit_info : CircuitInfo
circuit_info = record {
  n_inputs = 2;
  n_values = 3;
  add_offsets = gate 1 2 3 ∷ gate 5 2 1 ∷ [];
  mul_offsets = gate 3 1 4 ∷ [];
}

-- Stands for the functions of num-bigint: no number has an inverse.
abbrev no_inverse : Field
no_inverse = record { modinv = λ r m. none; gcd = λ r m. 1 }

-- Slots 3, 4 and 5 of the inputs 10 and 5: 15, 1 * 10 and 10 - 5 modulo 7.
outputs_mod_7 :
    eval_eval circuit_info no_inverse (
      unit ∷ unit ∷ unit ∷ Value.circuit (10 ∷ 5 ∷ []) ∷ Value.circuit_modulus 7 ∷ unit ∷ unit ∷ [])
    ≡ some (normal_branch 0 (unit ∷ unit ∷ Value.circuit_outputs (1 ∷ 3 ∷ 5 ∷ []) 7 ∷ []))
unfolding eval_eval first_outputs run_gates run_adds mul_step add_step add_values mul_values
outputs_mod_7 = refl

-- The same with the inverse of the sum in slot 4: slot 0 holds 1, their product.
abbrev inverting : CircuitInfo
inverting = record circuit_info { mul_offsets = gate 4 3 0 ∷ [] }

-- The inverse modulo 7, by a power.
abbrev inverse : ℕ → Option ℕ
inverse r = if r % 7 == 0 then none else some (r ^ 5 % 7)

abbrev powers : Field
powers = record { modinv = λ r m. inverse r; gcd = λ r m. 1 }

-- Slots 3, 4 and 5 of the inputs 10 and 7: 17 modulo 7, its inverse, and 10 - 7.
inverse_mod_7 :
    eval_eval inverting powers (
      unit ∷ unit ∷ unit ∷ Value.circuit (10 ∷ 7 ∷ []) ∷ Value.circuit_modulus 7 ∷ unit ∷ unit ∷ [])
    ≡ some (normal_branch 0 (unit ∷ unit ∷ Value.circuit_outputs (3 ∷ 5 ∷ 3 ∷ []) 7 ∷ []))
unfolding eval_eval first_outputs run_gates run_adds mul_step add_step add_values mul_values
inverse_mod_7 = refl

absent : {x : ℕ} → none ≡ some x → x < 7
absent h = cc

present : (n x : ℕ) → some (n % 7) ≡ some x → x < 7
present n x h = let same : n % 7 ≡ x = cc in omega (arith, same)

inverse-lt : (r x : ℕ) → inverse r ≡ some x → x < 7
inverse-lt r x h = elim (Bool-cases (r % 7 == 0)) [
  | inl f ↦ absent (rw f at h)
  | inr f ↦ present (r ^ 5) x (rw f at h)
]

eval_eval-CircuitOutcome_example : CircuitOutcome inverting 7 (
    eval_eval inverting powers (
      unit
      ∷ unit
      ∷ unit
      ∷ Value.circuit (10 ∷ 7 ∷ [])
      ∷ Value.circuit_modulus 7
      ∷ unit
      ∷ unit
      ∷ []))
eval_eval-CircuitOutcome_example =
    eval_eval-CircuitOutcome inverting powers (omega arith) (λ r x h. inverse-lt r x h)
      (10 ∷ 7 ∷ []) unit unit (omega arith)

u384_to_struct-Reenters_example : Reenters circuit_info (4 ∷ []) (2 ^ 200 + 5)
u384_to_struct-Reenters_example =
    u384_to_struct-Reenters circuit_info (4 ∷ []) (2 ^ 200 + 5) (omega arith)

-- ===== src/Emu/Circuit.antt =====
-- debug_utils/sierra-emu/src/vm/circuit.rs: circuits of gates that add and multiply modulo a number.
pub mod Gates
pub mod Reduced
pub mod Limbs
mod Examples
use cairo_native.Prelude.{
  ℕ, zero, suc, ◌+◌, ◌-◌, ◌*◌, ◌/◌, ◌%◌, ◌^◌, ltb, ◌==◌, ◌&&◌, Bool, true, false, if◌then◌else◌,
  List, [], ◌∷◌, ◌++◌, Option, none, some,
}
use Prim.Native.Nat.{bit_or}
use cairo_native.Prelude.Int.{ℤ, pos, negsuc, ◌-ℤ◌, eqb_ℤ}
use cairo_native.Utils.RangeExt.{Range}
use cairo_native.Emu.Panic.{◌>>=◌, ◌>>◌, assert}
use cairo_native.Emu.Value.{
  Value, ValueList, nil, cons, EvalAction, normal_branch, unit, struct_value,
}
use cairo_native.Emu.Items.{get_elem?, take}
use cairo_native.Emu.Vm.{nth}
use cairo_native.Emu.Circuit.Gates.{
  CircuitInfo, Field, length, run_gates, first_outputs, collected, drop,
}

-- A limb of 96 bits, and its value.
abbrev pub limb_range : Range
limb_range = record { lower = pos 0; upper = pos (2 ^ 96) }

abbrev pub limb : ℕ → Value
limb n = Value.bounded_int limb_range (pos n)

unfoldable pub u384_to_struct : ℕ → Value
u384_to_struct num = struct_value (
    cons (limb (num % 2 ^ 96)) (
      cons (limb (num / 2 ^ 96 % 2 ^ 96))
        (cons (limb (num / 2 ^ 192 % 2 ^ 96)) (cons (limb (num / 2 ^ 288 % 2 ^ 96)) nil))))

-- The lowest twelve bytes of each member.
unfoldable pub struct_to_u384 : ValueList → Option ℕ
struct_to_u384
      (cons
        (Value.u128 l0)
        (cons (Value.u128 l1) (cons (Value.u128 l2) (cons (Value.u128 l3) nil)))) =
    some (l0 % 2 ^ 96 + 2 ^ 96 * (l1 % 2 ^ 96) + 2 ^ 192 * (l2 % 2 ^ 96) + 2 ^ 288 * (l3 % 2 ^ 96))
struct_to_u384 _ = none

-- The circuit's description is that of the type in the handler's signature.
module _ (info : CircuitInfo) where
  unfoldable pub eval_add_input : List Value → Option EvalAction
  unfolding struct_to_u384
  eval_add_input (Value.circuit values ∷ Value.struct_value members ∷ []) = do
    input ← struct_to_u384 members
    let values' = values ++ input ∷ []
    let branch = if length values' == info.n_inputs then 0 else 1
    some (normal_branch branch (Value.circuit values' ∷ []))
  eval_add_input _ = none

  -- Both ways out.
  abbrev pub evaluated : ℕ → Bool × List (Option ℕ) → Option EvalAction
  evaluated modulus (true, outputs) = do
    values ← collected (drop (suc info.n_inputs) outputs)
    some (normal_branch 0 (unit ∷ unit ∷ Value.circuit_outputs values modulus ∷ []))
  evaluated modulus (false, outputs) = some (normal_branch 1 (unit ∷ unit ∷ unit ∷ unit ∷ []))

  unfoldable pub eval_eval : Field → List Value → Option EvalAction
  unfolding run_gates
  eval_eval field
        (unit ∷ unit ∷ unit ∷ Value.circuit inputs ∷ Value.circuit_modulus modulus ∷ _ ∷ _ ∷ []) =
      do
        outputs ← first_outputs info inputs
        result ← run_gates field modulus info.add_offsets info.mul_offsets outputs
        evaluated modulus result
  eval_eval field _ = none

  -- The offset of an output is that of its type in the circuit's values.
  unfoldable pub eval_get_output : (gate_offset : Option ℕ) → List Value → Option EvalAction
  unfolding u384_to_struct
  eval_get_output gate_offset (Value.circuit_outputs outputs modulus ∷ []) = do
    offset ← gate_offset
    assert (ltb info.n_inputs offset)
    output ← nth outputs (offset - 1 - info.n_inputs)
    some (
        normal_branch 0 (
          u384_to_struct output
          ∷ struct_value (cons (u384_to_struct output) (cons (u384_to_struct modulus) nil))
          ∷ []))
  eval_get_output gate_offset _ = none

  unfoldable pub eval_init_circuit_data : List Value → Option EvalAction
  eval_init_circuit_data (unit ∷ []) = some (normal_branch 0 (unit ∷ Value.circuit [] ∷ []))
  eval_init_circuit_data _ = none

abbrev pub bounded_value : Value → Option ℤ
bounded_value (Value.bounded_int r a) = some a
bounded_value _ = none

-- `to_u128().unwrap()` on a difference.
abbrev pub to_u128 : ℤ → Option ℕ
to_u128 (pos n) = if ltb n (2 ^ 128) then some n else none
to_u128 (negsuc n) = none

-- The last of `limb_count` limbs of the gate and of the modulus are compared.
unfoldable pub eval_u96_limbs_less_than_guarantee_verify : ℕ → List Value → Option EvalAction
eval_u96_limbs_less_than_guarantee_verify (suc n)
      (Value.struct_value (cons (Value.struct_value gate) (cons (Value.struct_value modulus) rest))
        ∷ []) =
    do
      gate_limb ← get_elem? gate n
      gate_last_limb ← bounded_value gate_limb
      modulus_limb ← get_elem? modulus n
      modulus_last_limb ← bounded_value modulus_limb
      diff ← to_u128 (modulus_last_limb -ℤ gate_last_limb)
      let again =
          struct_value (
            cons (struct_value (take (suc n) gate))
              (cons (struct_value (take (suc n) modulus)) nil))
      some (
          if diff == 0
          then normal_branch 0 (again ∷ [])
          else normal_branch 1 (Value.u128 diff ∷ []))
eval_u96_limbs_less_than_guarantee_verify _ _ = none

-- The handlers of the guarantees, which take one branch.
unfoldable pub eval_u96_limbs_less_than_guarantee_verify_v2 : List Value → Option EvalAction
eval_u96_limbs_less_than_guarantee_verify_v2 (unit ∷ _ ∷ []) = some (normal_branch 0 (unit ∷ []))
eval_u96_limbs_less_than_guarantee_verify_v2 _ = none

unfoldable pub eval_u96_single_limb_less_than_guarantee_verify : List Value → Option EvalAction
eval_u96_single_limb_less_than_guarantee_verify (_ ∷ []) =
    some (normal_branch 0 (Value.u128 0 ∷ []))
eval_u96_single_limb_less_than_guarantee_verify _ = none

unfoldable pub eval_u96_guarantee_verify : List Value → Option EvalAction
eval_u96_guarantee_verify (unit ∷ _ ∷ []) = some (normal_branch 0 (unit ∷ []))
eval_u96_guarantee_verify _ = none

abbrev zero_limbs : ℕ → ValueList
zero_limbs zero = nil
zero_limbs (suc n) = cons (limb 0) (zero_limbs n)

unfoldable pub eval_failure_guarantee_verify : (limbs_count : ℕ) → List Value → Option EvalAction
eval_failure_guarantee_verify limbs_count (unit ∷ unit ∷ _ ∷ _ ∷ _ ∷ []) =
    let limbs_struct = struct_value (zero_limbs limbs_count) in
    some (
      normal_branch 0 (unit ∷ unit ∷ struct_value (cons limbs_struct (cons limbs_struct nil)) ∷ []))
eval_failure_guarantee_verify limbs_count _ = none

unfoldable pub eval_get_descriptor : List Value → Option EvalAction
eval_get_descriptor args = some (normal_branch 0 (unit ∷ []))

abbrev pub is_limb_range : Range → Bool
is_limb_range r = eqb_ℤ r.lower (pos 0) && eqb_ℤ r.upper (pos (2 ^ 96))

-- `to_biguint().unwrap()`
abbrev to_biguint : ℤ → Option ℕ
to_biguint (pos n) = some n
to_biguint (negsuc n) = none

unfoldable pub eval_try_into_circuit_modulus : List Value → Option EvalAction
eval_try_into_circuit_modulus
      (Value.struct_value (
          cons (Value.bounded_int r0 a0) (
            cons
              (Value.bounded_int r1 a1)
              (cons (Value.bounded_int r2 a2) (cons (Value.bounded_int r3 a3) nil))))
        ∷ []) =
    do
      assert (is_limb_range r0)
      assert (is_limb_range r1)
      assert (is_limb_range r2)
      assert (is_limb_range r3)
      l0 ← to_biguint a0
      l1 ← to_biguint a1
      l2 ← to_biguint a2
      l3 ← to_biguint a3
      let value = bit_or (bit_or (bit_or l0 (l1 * 2 ^ 96)) (l2 * 2 ^ 192)) (l3 * 2 ^ 288)
      some (
          if ltb 1 value
          then normal_branch 0 (Value.circuit_modulus value ∷ [])
          else normal_branch 1 [])
eval_try_into_circuit_modulus _ = none

unfoldable pub eval_into_u96_guarantee : List Value → Option EvalAction
eval_into_u96_guarantee (Value.bounded_int range value ∷ []) = do
  assert (is_limb_range range)
  n ← to_u128 value
  some (normal_branch 0 (Value.u128 n ∷ []))
eval_into_u96_guarantee _ = none

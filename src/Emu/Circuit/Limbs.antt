-- ===== src/Emu/Circuit/Limbs.antt =====
-- debug_utils/sierra-emu/src/vm/circuit.rs: numbers of 384 bits as four limbs.
use cairo_native.Prelude.{
  ℕ, ◌+◌, ◌*◌, ◌/◌, ◌%◌, ◌^◌, ◌≡◌, ◌<◌, refl, ap, arith, ltb, lt→ltb, ◌==◌, if◌then◌else◌, List, [],
  ◌∷◌, ◌++◌, some, true,
}
use cairo_native.Emu.Value.{Value, nil, cons, normal_branch, struct_value}
use cairo_native.Emu.Circuit.{
  limb, u384_to_struct, struct_to_u384, eval_into_u96_guarantee, eval_add_input,
}
use cairo_native.Emu.Circuit.Gates.{CircuitInfo, length}

-- The limbs of a number, each made a guarantee, are an input that is the number again.
pub record Reenters (info : CircuitInfo) (values : List ℕ) (n : ℕ) : Type 0 where
  pub v0 : Value
  pub v1 : Value
  pub v2 : Value
  pub v3 : Value
  pub limbs : u384_to_struct n ≡ struct_value (cons v0 (cons v1 (cons v2 (cons v3 nil))))
  pub g0 : Value
  pub g1 : Value
  pub g2 : Value
  pub g3 : Value
  pub guarantee0 : eval_into_u96_guarantee (v0 ∷ []) ≡ some (normal_branch 0 (g0 ∷ []))
  pub guarantee1 : eval_into_u96_guarantee (v1 ∷ []) ≡ some (normal_branch 0 (g1 ∷ []))
  pub guarantee2 : eval_into_u96_guarantee (v2 ∷ []) ≡ some (normal_branch 0 (g2 ∷ []))
  pub guarantee3 : eval_into_u96_guarantee (v3 ∷ []) ≡ some (normal_branch 0 (g3 ∷ []))
  pub added :
      eval_add_input info
        (Value.circuit values ∷ struct_value (cons g0 (cons g1 (cons g2 (cons g3 nil)))) ∷ [])
      ≡ some (
          normal_branch
            (if length (values ++ n ∷ []) == info.n_inputs then 0 else 1)
            (Value.circuit (values ++ n ∷ []) ∷ []))

guarantee_lem :
    (l : ℕ)
    → l < 2 ^ 96
    → eval_into_u96_guarantee (limb l ∷ []) ≡ some (normal_branch 0 (Value.u128 l ∷ []))
unfolding eval_into_u96_guarantee
guarantee_lem l h =
    let fits : ltb l (2 ^ 128) ≡ true = lt→ltb l (2 ^ 128) (omega (arith, h)) in rw fits refl

-- A number of four limbs is the sum of its limbs.
sum_of_limbs :
    (n : ℕ)
    → n < 2 ^ 384
    → n % 2 ^ 96 % 2 ^ 96
        + 2 ^ 96 * (n / 2 ^ 96 % 2 ^ 96 % 2 ^ 96)
        + 2 ^ 192 * (n / 2 ^ 192 % 2 ^ 96 % 2 ^ 96)
        + 2 ^ 288 * (n / 2 ^ 288 % 2 ^ 96 % 2 ^ 96)
      ≡ n
sum_of_limbs n h = omega (arith, h)

-- For a number below 2 ^ 384, which each output of a circuit with a modulus of four limbs is: its
-- limbs pass for guarantees, and the structure of these guarantees is taken as an input of any
-- circuit, with the number as its value. It goes to branch 0 if it was the last input that was
-- missing, and to branch 1 otherwise.
pub u384_to_struct-Reenters :
    (info : CircuitInfo) (values : List ℕ) (n : ℕ) → n < 2 ^ 384 → Reenters info values n
unfolding u384_to_struct eval_add_input struct_to_u384
u384_to_struct-Reenters info values n h = record {
  v0 = limb (n % 2 ^ 96);
  v1 = limb (n / 2 ^ 96 % 2 ^ 96);
  v2 = limb (n / 2 ^ 192 % 2 ^ 96);
  v3 = limb (n / 2 ^ 288 % 2 ^ 96);
  limbs = refl;
  g0 = Value.u128 (n % 2 ^ 96);
  g1 = Value.u128 (n / 2 ^ 96 % 2 ^ 96);
  g2 = Value.u128 (n / 2 ^ 192 % 2 ^ 96);
  g3 = Value.u128 (n / 2 ^ 288 % 2 ^ 96);
  guarantee0 = guarantee_lem (n % 2 ^ 96) (omega arith);
  guarantee1 = guarantee_lem (n / 2 ^ 96 % 2 ^ 96) (omega arith);
  guarantee2 = guarantee_lem (n / 2 ^ 192 % 2 ^ 96) (omega arith);
  guarantee3 = guarantee_lem (n / 2 ^ 288 % 2 ^ 96) (omega arith);
  added =
      ap
        (λ x. some (
          normal_branch (if length (values ++ x ∷ []) == info.n_inputs then 0 else 1)
            (Value.circuit (values ++ x ∷ []) ∷ [])))
        (sum_of_limbs n h);
}

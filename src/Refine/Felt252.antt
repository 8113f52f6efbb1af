-- ===== src/Refine/Felt252.antt =====
-- Sums and differences of felts in the interpreter and in the compiled code.
use cairo_native.Prelude.{ℕ, ◌+◌, ◌-◌, ◌%◌, ◌≡◌, ◌<◌, refl, arith, Option, none, some, [], ◌∷◌}
use cairo_native.Error.{Result, ok}
use cairo_native.Mlir.{Mlir, IsMlir}
use cairo_native.Types.Integer.{prime}
use cairo_native.Libfuncs.Counter.{Jump}
use cairo_native.Libfuncs.Felt252.Build.{add, sub, Felt252Runtime, build_binary_operation}
use cairo_native.Libfuncs.Felt252.Sums.{build_binary_operation-add, build_binary_operation-sub}
use cairo_native.Emu.Value.{Value, EvalAction, normal_branch}
use cairo_native.Emu.Felt252.{eval_felt_operation, felt_add, felt_sub}

-- Both give the same felt in branch 0.
pub record SameFelt (e : Option EvalAction) (j : Result Jump) : Type 0 where
  pub result : ℕ
  pub below : result < prime
  pub interpreted : e ≡ some (normal_branch 0 (Value.felt result ∷ []))
  pub compiled : j ≡ ok (0, result ∷ [])

module _ {m : Mlir} (laws : IsMlir m) (rt : Felt252Runtime) (field_div : ℕ → ℕ → ℕ) where
  -- On two felts, the interpreter and the code for an addition take branch 0 with the same felt,
  -- and so do they for a subtraction.
  pub felt_operation-SameFelt :
      (x y : ℕ)
      → x < prime
      → y < prime
      → SameFelt
          (eval_felt_operation field_div felt_add (Value.felt x ∷ Value.felt y ∷ []))
          (build_binary_operation m rt add none (x ∷ y ∷ []))
        × SameFelt
            (eval_felt_operation field_div felt_sub (Value.felt x ∷ Value.felt y ∷ []))
            (build_binary_operation m rt sub none (x ∷ y ∷ []))
  unfolding eval_felt_operation
  felt_operation-SameFelt x y h k = (
    record {
      result = (x + y) % prime;
      below = omega arith;
      interpreted = refl;
      compiled = build_binary_operation-add laws rt x y h k;
    },
    record {
      result = (x + prime - y) % prime;
      below = omega arith;
      interpreted = refl;
      compiled = build_binary_operation-sub laws rt x y h k;
    },
  )

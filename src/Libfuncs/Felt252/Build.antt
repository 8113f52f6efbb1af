-- ===== src/Libfuncs/Felt252/Build.antt =====
-- src/libfuncs/felt252.rs: the builders. Multiplication and division call functions of the
-- runtime, which are those of a library of felts: they are parameters.
use cairo_native.Prelude.{ℕ, ◌-◌, List, [], ◌∷◌, Option, some, none, if◌then◌else◌}
use cairo_native.Prelude.Int.{ℤ, pos, negsuc}
use cairo_native.Error.{Result, ok, err, mlir_error, ◌>>=◌}
use cairo_native.Mlir.{Mlir, uge, ult, eq}
use cairo_native.Types.Integer.{prime}
use cairo_native.Libfuncs.Counter.{Jump}

-- Sierra's `Felt252BinaryOperator`.
pub data Felt252BinaryOperator : Type 0 where
  add sub mul div : Felt252BinaryOperator

-- `cairo_native__felt252_mul` and `cairo_native__felt252_div` on the numbers
-- that their pointers lead to.
pub record Felt252Runtime : Type 0 where
  pub felt252_mul : ℕ → ℕ → ℕ
  pub felt252_div : ℕ → ℕ → ℕ

-- The residue of a constant; a panic, in the source, for a constant below minus the prime.
unfoldable pub felt_to_unsigned : ℤ → ℕ
felt_to_unsigned (pos n) = n
felt_to_unsigned (negsuc n) = prime - ℕ.suc n

module _ (m : Mlir) (rt : Felt252Runtime) where
  -- The match on the operator.
  unfoldable pub build_operator : Felt252BinaryOperator → ℕ → ℕ → Result ℕ
  build_operator add lhs rhs = do
    let lhs_wide = m.extui 252 256 lhs
    let rhs_wide = m.extui 252 256 rhs
    let result = m.addi 256 lhs_wide rhs_wide
    prime_value ← m.const_int 256 (pos prime)
    let result_mod = m.subi 256 result prime_value
    let is_out_of_range = m.cmpi uge 256 result prime_value
    ok (m.trunci 256 252 (if is_out_of_range then result_mod else result))
  build_operator sub lhs rhs = do
    let lhs_wide = m.extui 252 256 lhs
    let rhs_wide = m.extui 252 256 rhs
    let result = m.subi 256 lhs_wide rhs_wide
    prime_value ← m.const_int 256 (pos prime)
    let result_mod = m.addi 256 result prime_value
    let is_out_of_range = m.cmpi ult 256 lhs_wide rhs_wide
    ok (m.trunci 256 252 (if is_out_of_range then result_mod else result))
  build_operator mul lhs rhs =
      ok (m.trunci 256 252 (rt.felt252_mul (m.extui 252 256 lhs) (m.extui 252 256 rhs)))
  build_operator div lhs rhs =
      ok (m.trunci 256 252 (rt.felt252_div (m.extui 252 256 lhs) (m.extui 252 256 rhs)))

  -- An operation with a constant has the constant here.
  unfoldable pub build_binary_operation :
      Felt252BinaryOperator → (constant : Option ℤ) → List ℕ → Result Jump
  unfolding build_operator
  build_binary_operation op none (lhs ∷ rhs ∷ []) = do
    result ← build_operator op lhs rhs
    ok (0, result ∷ [])
  build_binary_operation op (some c) (lhs ∷ []) = do
    rhs ← m.const_int 252 (pos (felt_to_unsigned c))
    result ← build_operator op lhs rhs
    ok (0, result ∷ [])
  build_binary_operation op _ _ = err mlir_error

  unfoldable pub build_const : ℤ → Result Jump
  unfolding felt_to_unsigned
  build_const c = do value ← m.const_int 252 (pos (felt_to_unsigned c)); ok (0, value ∷ [])

  unfoldable pub build_is_zero : ℕ → Result Jump
  build_is_zero arg0 = do
    k0 ← m.const_int 252 (pos 0)
    ok (if m.cmpi eq 252 arg0 k0 then (0, []) else (1, arg0 ∷ []))

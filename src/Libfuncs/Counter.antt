-- ===== src/Libfuncs/Counter.antt =====
-- src/libfuncs.rs: jumps, and the counters of the builtins, which are 64-bit words.
use cairo_native.Prelude.{ℕ, List, Bool, true, false, if◌then◌else◌, ◌≡◌, ◌+◌, ◌^◌, ◌%◌, ◌<◌}
use cairo_native.Prelude.Int.{pos}
use cairo_native.Error.{Result, ok, ◌>>=◌}
use cairo_native.Mlir.{Mlir, IsMlir}

-- Where `helper.br` goes: the index of the branch and the values for it.
abbrev pub Jump : Type 0
Jump = ℕ × List ℕ

-- `RANGE_CHECK_BUILTIN_SIZE` and `BITWISE_BUILTIN_SIZE` of src/execution_result.rs.
abbrev pub range_check_builtin_size : ℕ
range_check_builtin_size = 1

abbrev pub bitwise_builtin_size : ℕ
bitwise_builtin_size = 5

unfoldable pub increment_builtin_counter_by : Mlir → ℕ → ℕ → Result ℕ
increment_builtin_counter_by m value amount = do
  k ← m.const_int 64 (pos amount)
  ok (m.addi 64 value k)

unfoldable pub increment_builtin_counter : Mlir → ℕ → Result ℕ
unfolding increment_builtin_counter_by
increment_builtin_counter m value = increment_builtin_counter_by m value 1

unfoldable pub increment_builtin_counter_conditionally_by :
    Mlir → ℕ → (true_amount false_amount : ℕ) → Bool → Result ℕ
increment_builtin_counter_conditionally_by m value true_amount false_amount condition = do
  true_value ← m.const_int 64 (pos true_amount)
  false_value ← m.const_int 64 (pos false_amount)
  let true_incremented = m.addi 64 value true_value
  let false_incremented = m.addi 64 value false_value
  ok (if condition then true_incremented else false_incremented)

-- The counter grows by the amount, modulo 2 ^ 64.
pub increment_builtin_counter_by_lem :
    {m : Mlir} (laws : IsMlir m) (value amount : ℕ)
    → value < 2 ^ 64
    → amount < 2 ^ 64
    → increment_builtin_counter_by m value amount ≡ ok ((value + amount) % 2 ^ 64)
unfolding increment_builtin_counter_by
increment_builtin_counter_by_lem laws value amount h k =
    rw (laws.const_int_pos 64 amount k, laws.addi_lem 64 value amount h k)

-- The counter grows by the amount of the case, modulo 2 ^ 64.
pub increment_builtin_counter_conditionally_by_lem :
    {m : Mlir} (laws : IsMlir m) (value more less : ℕ) (condition : Bool)
    → value < 2 ^ 64
    → more < 2 ^ 64
    → less < 2 ^ 64
    → increment_builtin_counter_conditionally_by m value more less condition
      ≡ ok ((value + (if condition then more else less)) % 2 ^ 64)
unfolding increment_builtin_counter_conditionally_by
increment_builtin_counter_conditionally_by_lem laws value more less true h k l =
    rw (laws.const_int_pos 64 more k, laws.const_int_pos 64 less l, laws.addi_lem 64 value more h k)
increment_builtin_counter_conditionally_by_lem laws value more less false h k l =
    rw (laws.const_int_pos 64 more k, laws.const_int_pos 64 less l, laws.addi_lem 64 value less h l)

-- ===== src/Starknet/Result.antt =====
-- `read_contract_result` of src/starknet_stub.rs: what a contract's entry point returns.
use cairo_native.Prelude.{ℕ, zero, suc, List, [], ◌∷◌, Option, none, some}
use cairo_native.Emu.Panic.{◌>>=◌}
use cairo_native.ExecutionResult.{
  Value, ValueList, nil, cons, felt252, array, struct_value, enum_value,
}

-- `RunResultValue` of the runner of Cairo.
pub data RunResultValue : Type 0 where
  success panic : List ℕ → RunResultValue

unfoldable pub read_felts : ValueList → Option (List ℕ)
read_felts nil = some []
read_felts (cons (felt252 value) values) = do rest ← read_felts values; some (value ∷ rest)
read_felts (cons _ values) = none

-- A value of another type than `PanicResult<(Span<Felt>,)>` is none.
unfoldable pub read_contract_result : Value → Option RunResultValue
unfolding read_felts
read_contract_result
      (enum_value zero (struct_value (cons (struct_value (cons (array values) nil)) nil))) =
    do felts ← read_felts values; some (success felts)
read_contract_result (enum_value (suc zero) (struct_value (cons info (cons (array values) nil)))) =
    do felts ← read_felts values; some (panic felts)
read_contract_result _ = none

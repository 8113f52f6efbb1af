-- ===== src/Starknet/Stub/Contracts.antt =====
-- src/starknet_stub.rs: the classes of contracts, and calls of entry points in a caller's context.
use cairo_native.Prelude.{ℕ, ◌+◌, ◌%◌, ◌^◌, Bool, true, false, List, [], ◌∷◌, Option, none, some}
use cairo_native.ExecutionResult.{
  Value, ValueList, nil, cons, felt252, array, struct_value, ExecutionResult, add_stats,
}
use cairo_native.Starknet.Result.{RunResultValue, success, panic, read_contract_result}
use cairo_native.Starknet.Syscall.{
  SyscallResult, ok, err, ◌>>=◌, ◌>>◌, done, require, get, modify, deduct_gas,
}
use cairo_native.Starknet.Stub.{
  StubSyscallHandler, insert, unwrap_or, replace_class_cost, get_class_hash_at_cost,
}
use cairo_native.Starknet.Stub.Storage.{Call}

-- "CLASS_HASH_NOT_FOUND" as a felt.
abbrev pub class_hash_not_found : ℕ
class_hash_not_found = 384202928933128251697107453381487007374824001092

abbrev is_some : {A : Type 0} → Option A → Bool
is_some none = false
is_some (some a) = true

unfoldable pub replace_class : ℕ → Call (Unit {0})
unfolding deduct_gas
replace_class class_hash = do
  deduct_gas replace_class_cost
  self ← get
  require (is_some (self.contracts_info class_hash)) (class_hash_not_found ∷ [])
  modify (λ self. record self {
    deployed_contracts =
        insert self.deployed_contracts self.execution_info.contract_address class_hash;
  })

unfoldable pub get_class_hash_at : ℕ → Call ℕ
unfolding deduct_gas
get_class_hash_at contract_address = do
  deduct_gas get_class_hash_at_cost
  self ← get
  done (unwrap_or 0 (self.deployed_contracts contract_address))

abbrev pub Addresses : Type 0
Addresses = ℕ × ℕ

-- Sets the address of the contract and that of its caller.
abbrev pub with_addresses : Addresses → StubSyscallHandler → StubSyscallHandler
with_addresses (contract, caller) self = record self {
  execution_info = record self.execution_info {
    contract_address = contract;
    caller_address = caller;
  };
}

-- Gives the old addresses back.
unfoldable pub open_caller_context : Addresses → Call Addresses
open_caller_context addresses = do
  self ← get
  modify (with_addresses addresses)
  done (self.execution_info.contract_address, self.execution_info.caller_address)

unfoldable pub close_caller_context : Addresses → Call (Unit {0})
close_caller_context addresses = modify (with_addresses addresses)

abbrev pub to_values : List ℕ → ValueList
to_values [] = nil
to_values (x ∷ xs) = cons (felt252 x) (to_values xs)

-- The run of an entry point on compiled code, with the handler for its own system calls; none
-- where it fails.
abbrev pub Invoke : Type 0
Invoke =
    ℕ → List Value → Option ℕ → StubSyscallHandler → Option (StubSyscallHandler × ExecutionResult)

-- What remains of the gas is the counter's new value, if the run tells.
abbrev pub remaining : ℕ → Option ℕ → ℕ
remaining gas none = gas
remaining gas (some left) = left

abbrev pub starknet_result : RunResultValue → SyscallResult (List ℕ)
starknet_result (success felts) = ok felts
starknet_result (panic felts) = err felts

-- What is left of a run: the counters of the builtins, the gas and the result.
unfoldable pub record_run :
    StubSyscallHandler × ExecutionResult
    → ℕ
    → Option (StubSyscallHandler × ℕ × SyscallResult (List ℕ))
record_run (self, result) gas = elim (read_contract_result result.return_value) [
  | none ↦ none
  | some value ↦ some (
    record self { builtin_counters = add_stats self.builtin_counters result.builtin_stats },
    remaining gas result.remaining_gas,
    starknet_result value,
  )
]

-- Without an executor the process stops, and so it does for a run that fails, or for a result
-- which is not that of an entry point.
module _ (entry_point_cost : ℕ) (executor : Option Invoke) where
  unfoldable pub call_entry_point : ℕ → List ℕ → Call (List ℕ)
  unfolding record_run
  call_entry_point entry_point calldata self gas = elim executor [
    | none ↦ none
    | some invoke ↦
        let inner_args = struct_value (cons (array (to_values calldata)) nil) ∷ [] in
        elim (invoke entry_point inner_args (some ((gas + entry_point_cost) % 2 ^ 64)) self) [
          | none ↦ none
          | some run ↦ record_run run gas
        ]
  ]

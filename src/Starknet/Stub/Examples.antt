-- ===== src/Starknet/Stub/Examples.antt =====
-- A chain with two contracts, 10 and 11, of class 5, whose entry point 77 writes a cell of its
-- contract and returns its caller's address.
use cairo_native.Prelude.{
  ℕ, ◌≡◌, ap, ◌∙◌, arith, ◌==◌, if◌then◌else◌, ltb, List, [], ◌∷◌, Option, none, some,
}
use cairo_native.ExecutionResult.{
  nil, cons, felt252, array, struct_value, enum_value, BuiltinStats, ExecutionResult,
}
use cairo_native.Starknet.Stub.{StubSyscallHandler, ContractInfo}
use cairo_native.Starknet.Stub.Storage.{write_cell}
use cairo_native.Starknet.Stub.Contracts.{Invoke}
use cairo_native.Starknet.Stub.Calls.{call_contract}
use cairo_native.Starknet.Stub.Replay.{Request, read, write, emit, enter, take_log}
use cairo_native.Starknet.Stub.Runs.{RunFollows, run_requests-RunFollows}
use cairo_native.Starknet.Stub.Context.{Within, Frugal, call_contract-Within}

abbrev no_stats : BuiltinStats
no_stats = record {
  range_check = 0;
  pedersen = 0;
  bitwise = 0;
  ec_op = 0;
  poseidon = 0;
  segment_arena = 0;
  range_check96 = 0;
  add_mod = 0;
  mul_mod = 0;
  blake = 0;
}

abbrev class_info : ContractInfo
class_info = record {
  constructor_id = some 1;
  externals = λ selector. if selector == 77 then some 2 else none;
}

abbrev handler : StubSyscallHandler
handler = record {
  storage = λ c. none;
  deployed_contracts = λ c. if ltb c 12 then some 5 else none;
  logs = λ c. none;
  execution_info = record {
    block_info = record { block_number = 1; block_timestamp = 2; sequencer_address = 3 };
    tx_info = record {
      version = 1;
      account_contract_address = 4;
      max_fee = 0;
      signature = [];
      transaction_hash = 6;
      chain_id = 7;
      nonce = 8;
    };
    caller_address = 9;
    contract_address = 10;
    entry_point_selector = 77;
  };
  block_hash = λ n. none;
  contracts_info = λ class_hash. if class_hash == 5 then some class_info else none;
  builtin_counters = no_stats;
}

-- A write, a read of the same cell, a read in another contract, an event that is taken out.
abbrev requests : List Request
requests =
    write 0 3 42
    ∷ read 0 3
    ∷ enter 11
    ∷ read 0 3
    ∷ emit (1 ∷ 2 ∷ []) (5 ∷ [])
    ∷ take_log 11
    ∷ read 1 3
    ∷ []

run_requests-RunFollows_example : RunFollows requests handler 30000
run_requests-RunFollows_example = run_requests-RunFollows requests handler 30000

-- An entry point that gives 100 units of gas back, if it has them.
abbrev caller_result : ℕ → ℕ → ExecutionResult
caller_result caller gas = record {
  remaining_gas = some (if ltb gas 100 then gas else 100);
  return_value =
      enum_value 0
        (struct_value (cons (struct_value (cons (array (cons (felt252 caller) nil)) nil)) nil));
  builtin_stats = no_stats;
}

abbrev given_gas : Option ℕ → ℕ
given_gas none = 0
given_gas (some gas) = gas

abbrev invoke : Invoke
invoke f args gas self = some (
  record self { storage = write_cell self.storage self.execution_info.contract_address 1 2 },
  caller_result self.execution_info.caller_address (given_gas gas),
)

abbrev gas_left : Option (StubSyscallHandler × ExecutionResult) → ℕ
gas_left none = 0
gas_left (some (self, result)) = given_gas result.remaining_gas

invoke-Frugal : Frugal invoke
invoke-Frugal f args gas self self' result left h k =
    let left_eq : (if ltb gas 100 then gas else 100) ≡ left = ap gas_left h ∙ ap given_gas k in
    ground (arith, left_eq)

call_contract-Within_example :
    Within (10, 9) 80000 (call_contract 10000 (some invoke) 11 77 (6 ∷ []) handler 80000)
call_contract-Within_example =
    call_contract-Within 10000 (some invoke) invoke-Frugal 11 77 (6 ∷ []) handler 80000

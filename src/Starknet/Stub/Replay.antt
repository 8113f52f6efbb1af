-- ===== src/Starknet/Stub/Replay.antt =====
-- src/starknet_stub.rs: the storage and the logs as a contract sees them. A chain is a table of
-- cells, which are zero at first, and the queues of each contract; requests to the handler do what
-- they do to the chain.
use cairo_native.Prelude.{ℕ, ◌-◌, ltb, ◌==◌, if◌then◌else◌, List, [], ◌∷◌, ◌++◌, Option, none, some}
use cairo_native.Starknet.Syscall.{SyscallResult, ok, err, out_of_gas, ◌>>=◌, done}
use cairo_native.Starknet.Stub.{
  StubSyscallHandler, StubEvent, ContractLogs, HashMap, unwrap_or, storage_read_cost,
  storage_write_cost, emit_event_cost, send_message_to_l1_cost,
}
use cairo_native.Starknet.Stub.Storage.{
  Call, storage_read, storage_write, emit_event, send_message_to_l1, cell, no_logs,
  unsupported_address_domain,
}
use cairo_native.Starknet.Stub.Cheatcode.{
  cheatcode, set_contract_address, pop_log, pop_l2_to_l1_message,
}
use cairo_native.Starknet.Stub.Crypto.{length}

-- What contracts and tests ask of the handler: system calls, and cheatcodes without gas.
pub data Request : Type 0 where
  read : (address_domain address : ℕ) → Request
  write : (address_domain address value : ℕ) → Request
  emit : (keys content : List ℕ) → Request
  message : (to_address : ℕ) (payload : List ℕ) → Request
  enter take_log take_message : (contract : ℕ) → Request

Reply : Type 0
Reply = SyscallResult (List ℕ)

abbrev no_result : Unit {0} → List ℕ
no_result unit = []

abbrev one_felt : ℕ → List ℕ
one_felt x = x ∷ []

abbrev with_result : {A : Type 0} → (A → List ℕ) → Call A → Call (List ℕ)
with_result f m = m >>= λ a. done (f a)

abbrev by_cheatcode :
    Option (StubSyscallHandler × List ℕ)
    → ℕ
    → Option (StubSyscallHandler × ℕ × SyscallResult (List ℕ))
by_cheatcode none gas = none
by_cheatcode (some (self, felts)) gas = some (self, gas, ok felts)

unfoldable pub request : Request → Call (List ℕ)
request (read d a) self gas = with_result one_felt (storage_read d a) self gas
request (write d a v) self gas = with_result no_result (storage_write d a v) self gas
request (emit ks ds) self gas = with_result no_result (emit_event ks ds) self gas
request (message to payload) self gas =
    with_result no_result (send_message_to_l1 to payload) self gas
request (enter c) self gas = by_cheatcode (cheatcode set_contract_address (c ∷ []) self) gas
request (take_log c) self gas = by_cheatcode (cheatcode pop_log (c ∷ []) self) gas
request (take_message c) self gas = by_cheatcode (cheatcode pop_l2_to_l1_message (c ∷ []) self) gas

-- The abstract chain, with the contract that runs and its gas.
pub record Chain : Type 0 where
  pub contract : ℕ
  pub gas : ℕ
  pub cells : ℕ → ℕ → ℕ
  pub events : ℕ → List StubEvent
  pub messages : ℕ → List (ℕ × List ℕ)

abbrev pub assign : {A : Type 0} → (ℕ → A) → ℕ → A → ℕ → A
assign f i a j = if j == i then a else f j

-- The effect of a call that costs gas.
abbrev paying :
    ℕ → Chain → (Chain → Chain × SyscallResult (List ℕ)) → Chain × SyscallResult (List ℕ)
paying price chain next =
    if ltb chain.gas price
    then (chain, err (out_of_gas ∷ []))
    else next (record chain { gas = chain.gas - price })

abbrev in_domain : ℕ → Chain → Chain × SyscallResult (List ℕ) → Chain × SyscallResult (List ℕ)
in_domain d chain result = if d == 0 then result else (chain, err (unsupported_address_domain ∷ []))

unfoldable pub replay : Request → Chain → Chain × SyscallResult (List ℕ)
replay (read d a) chain =
    paying storage_read_cost chain (λ c. in_domain d c (c, ok (c.cells c.contract a ∷ [])))
replay (write d a v) chain = paying storage_write_cost chain (λ c.
    in_domain d c
      (record c { cells = assign c.cells c.contract (assign (c.cells c.contract) a v) }, ok []))
replay (emit ks ds) chain = paying emit_event_cost chain (λ c. (
  record c {
    events =
        assign c.events c.contract (c.events c.contract ++ record { keys = ks; content = ds } ∷ []);
  },
  ok [],
))
replay (message to payload) chain = paying send_message_to_l1_cost chain (λ c. (
  record c {
    messages = assign c.messages c.contract (c.messages c.contract ++ (to, payload) ∷ []);
  },
  ok [],
))
replay (enter contract) chain = (record chain { contract = contract }, ok [])
replay (take_log contract) chain = elim (chain.events contract) [
  | [] ↦ (chain, ok [])
  | event ∷ events ↦ (
    record chain { events = assign chain.events contract events },
    ok (length event.keys ∷ event.keys ++ length event.content ∷ event.content),
  )
]
replay (take_message contract) chain = elim (chain.messages contract) [
  | [] ↦ (chain, ok [])
  | (to, payload) ∷ messages ↦ (
    record chain { messages = assign chain.messages contract messages },
    ok (to ∷ length payload ∷ payload),
  )
]

-- The chain that a handler keeps.
abbrev pub events_of : HashMap ContractLogs → ℕ → List StubEvent
events_of logs contract = (unwrap_or no_logs (logs contract)).events

abbrev pub messages_of : HashMap ContractLogs → ℕ → List (ℕ × List ℕ)
messages_of logs contract = (unwrap_or no_logs (logs contract)).l2_to_l1_messages

abbrev pub chain_of : StubSyscallHandler → ℕ → Chain
chain_of self gas = record {
  contract = self.execution_info.contract_address;
  gas = gas;
  cells = cell self.storage;
  events = events_of self.logs;
  messages = messages_of self.logs;
}

-- One request after the other, with their replies.
abbrev pub Replies : Type 0
Replies = List (SyscallResult (List ℕ))

unfoldable pub run_requests :
    List Request → StubSyscallHandler → ℕ → Option (StubSyscallHandler × ℕ × Replies)
run_requests [] self gas = some (self, gas, [])
run_requests (r ∷ rs) self gas = elim (request r self gas) [
  | none ↦ none
  | some (self', gas', reply) ↦ elim (run_requests rs self' gas') [
    | none ↦ none
    | some (self'', gas'', replies) ↦ some (self'', gas'', reply ∷ replies)
  ]
]

unfoldable pub replay_all : List Request → Chain → Chain × Replies
replay_all [] chain = (chain, [])
replay_all (r ∷ rs) chain =
    let (chain', reply) = replay r chain in
    let (chain'', replies) = replay_all rs chain' in (chain'', reply ∷ replies)

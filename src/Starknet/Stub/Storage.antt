-- ===== src/Starknet/Stub/Storage.antt =====
-- src/starknet_stub.rs: the system calls on storage, logs and execution information.
use cairo_native.Prelude.{ℕ, ◌==◌, List, [], ◌∷◌, ◌++◌, none, some}
use cairo_native.Starknet.Info.{ExecutionInfo, TxInfo, TxV2Info, TxV3Info}
use cairo_native.Starknet.Syscall.{
  Syscall, ◌>>=◌, ◌>>◌, done, require, ok_or, get, modify, deduct_gas,
}
use cairo_native.Starknet.Stub.{
  StubSyscallHandler, HashMap, insert, unwrap_or, ContractLogs, get_block_hash_cost,
  get_execution_info_cost, storage_read_cost, storage_write_cost, emit_event_cost,
  send_message_to_l1_cost,
}

-- "GET_BLOCK_HASH_NOT_SET" and "Unsupported address domain" as felts.
abbrev pub block_hash_not_set : ℕ
block_hash_not_set = 26665579052673244495361917692582266232044111491450196

abbrev pub unsupported_address_domain : ℕ
unsupported_address_domain = 137283045993144043501733121243818978359763286750835609782282606

abbrev pub Call : Type 0 → Type 0
Call = Syscall StubSyscallHandler

unfoldable pub get_block_hash : ℕ → Call ℕ
unfolding deduct_gas
get_block_hash block_number = do
  deduct_gas get_block_hash_cost
  self ← get
  ok_or (self.block_hash block_number) (block_hash_not_set ∷ [])

unfoldable pub get_execution_info : Call (ExecutionInfo TxInfo)
unfolding deduct_gas
get_execution_info = do deduct_gas get_execution_info_cost; self ← get; done self.execution_info

-- The fields that a newer version adds have their defaults.
abbrev pub to_v2 : TxInfo → TxV2Info
to_v2 tx = record {
  version = tx.version;
  account_contract_address = tx.account_contract_address;
  max_fee = tx.max_fee;
  signature = tx.signature;
  transaction_hash = tx.transaction_hash;
  chain_id = tx.chain_id;
  nonce = tx.nonce;
  resource_bounds = [];
  tip = 0;
  paymaster_data = [];
  nonce_data_availability_mode = 0;
  fee_data_availability_mode = 0;
  account_deployment_data = [];
}

abbrev pub to_v3 : TxInfo → TxV3Info
to_v3 tx = record {
  version = tx.version;
  account_contract_address = tx.account_contract_address;
  max_fee = tx.max_fee;
  signature = tx.signature;
  transaction_hash = tx.transaction_hash;
  chain_id = tx.chain_id;
  nonce = tx.nonce;
  resource_bounds = [];
  tip = 0;
  paymaster_data = [];
  nonce_data_availability_mode = 0;
  fee_data_availability_mode = 0;
  account_deployment_data = [];
  proof_facts = [];
}

abbrev with_tx : {Tx : Type 0} → ExecutionInfo TxInfo → (TxInfo → Tx) → ExecutionInfo Tx
with_tx info to = record {
  block_info = info.block_info;
  tx_info = to info.tx_info;
  caller_address = info.caller_address;
  contract_address = info.contract_address;
  entry_point_selector = info.entry_point_selector;
}

unfoldable pub get_execution_info_v2 : Call (ExecutionInfo TxV2Info)
unfolding deduct_gas
get_execution_info_v2 = do
  deduct_gas get_execution_info_cost
  self ← get
  done (with_tx self.execution_info to_v2)

unfoldable pub get_execution_info_v3 : Call (ExecutionInfo TxV3Info)
unfolding deduct_gas
get_execution_info_v3 = do
  deduct_gas get_execution_info_cost
  self ← get
  done (with_tx self.execution_info to_v3)

-- A cell of the storage of a contract, zero where nothing was written.
abbrev pub cell : HashMap (HashMap ℕ) → ℕ → ℕ → ℕ
cell storage contract address = elim (storage contract) [
  | none ↦ 0
  | some contract_storage ↦ unwrap_or 0 (contract_storage address)
]

abbrev pub write_cell : HashMap (HashMap ℕ) → ℕ → ℕ → ℕ → HashMap (HashMap ℕ)
write_cell storage contract address value =
    insert storage contract (insert (unwrap_or (λ _. none) (storage contract)) address value)

unfoldable pub storage_read : ℕ → ℕ → Call ℕ
unfolding deduct_gas
storage_read address_domain address = do
  deduct_gas storage_read_cost
  require (address_domain == 0) (unsupported_address_domain ∷ [])
  self ← get
  done (cell self.storage self.execution_info.contract_address address)

unfoldable pub storage_write : ℕ → ℕ → ℕ → Call (Unit {0})
unfolding deduct_gas
storage_write address_domain address value = do
  deduct_gas storage_write_cost
  require (address_domain == 0) (unsupported_address_domain ∷ [])
  modify (λ self. record self {
    storage = write_cell self.storage self.execution_info.contract_address address value;
  })

abbrev pub no_logs : ContractLogs
no_logs = record { events = []; l2_to_l1_messages = [] }

-- `push_back` on a queue of the contract that runs.
abbrev pub push_event : List ℕ → List ℕ → StubSyscallHandler → StubSyscallHandler
push_event keys content self =
    let contract = self.execution_info.contract_address in
    let logs = unwrap_or no_logs (self.logs contract) in
    record self {
      logs =
          insert self.logs contract (record logs {
            events = logs.events ++ record { keys = keys; content = content } ∷ [];
          });
    }

abbrev pub push_message : ℕ → List ℕ → StubSyscallHandler → StubSyscallHandler
push_message to_address payload self =
    let contract = self.execution_info.contract_address in
    let logs = unwrap_or no_logs (self.logs contract) in
    record self {
      logs = insert self.logs contract (record logs {
        l2_to_l1_messages = logs.l2_to_l1_messages ++ (to_address, payload) ∷ [];
      });
    }

unfoldable pub emit_event : List ℕ → List ℕ → Call (Unit {0})
unfolding deduct_gas
emit_event keys content = do deduct_gas emit_event_cost; modify (push_event keys content)

unfoldable pub send_message_to_l1 : ℕ → List ℕ → Call (Unit {0})
unfolding deduct_gas
send_message_to_l1 to_address payload = do
  deduct_gas send_message_to_l1_cost
  modify (push_message to_address payload)

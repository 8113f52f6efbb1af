-- ===== src/Starknet/Stub.antt =====
-- src/starknet_stub.rs: the state of the handler of system calls. A hash map is a function from
-- its keys. The executor of compiled code is an argument of the calls that use it.
pub mod Storage
pub mod Contracts
pub mod Calls
pub mod Crypto
pub mod Cheatcode
pub mod Replay
pub mod Follows
pub mod Runs
pub mod Context
mod Examples
use cairo_native.Prelude.{ℕ, ◌+◌, ◌*◌, ◌==◌, if◌then◌else◌, List, Option, none, some}
use cairo_native.ExecutionResult.{BuiltinStats}
use cairo_native.Starknet.Info.{ExecutionInfo, TxInfo}

abbrev pub HashMap : Type 0 → Type 0
HashMap V = ℕ → Option V

abbrev pub insert : {V : Type 0} → HashMap V → ℕ → V → HashMap V
insert m key v j = if j == key then some v else m j

abbrev pub remove : {V : Type 0} → HashMap V → ℕ → HashMap V
remove m key j = if j == key then none else m j

-- `unwrap_or`, and `entry(key).or_default()`
abbrev pub unwrap_or : {V : Type 0} → V → Option V → V
unwrap_or default none = default
unwrap_or default (some v) = v

pub record StubEvent : Type 0 where
  pub keys : List ℕ
  pub content : List ℕ

-- A message to L1 is an address with a payload; the first item of a queue is its front.
pub record ContractLogs : Type 0 where
  pub events : List StubEvent
  pub l2_to_l1_messages : List (ℕ × List ℕ)

-- The entry points of a class: its functions are named by numbers.
pub record ContractInfo : Type 0 where
  pub constructor_id : Option ℕ
  pub externals : HashMap ℕ

pub record StubSyscallHandler : Type 0 where
  pub storage : HashMap (HashMap ℕ)
  pub deployed_contracts : HashMap ℕ
  pub logs : HashMap ContractLogs
  pub execution_info : ExecutionInfo TxInfo
  pub block_hash : HashMap ℕ
  pub contracts_info : HashMap ContractInfo
  pub builtin_counters : BuiltinStats

-- `gas_costs`; the cost of an entry point is a constant of Cairo's own library, an argument.
abbrev pub step_cost : ℕ
step_cost = 100

abbrev pub range_check_cost : ℕ
range_check_cost = 70

abbrev pub bitwise_cost : ℕ
bitwise_cost = 594

abbrev pub entry_point_gas : ℕ → ℕ
entry_point_gas entry_point_cost = entry_point_cost + 500 * step_cost

abbrev pub call_contract_cost : ℕ → ℕ
call_contract_cost entry_point_cost = 10 * step_cost + entry_point_gas entry_point_cost

abbrev pub deploy_cost : ℕ → ℕ
deploy_cost entry_point_cost = 200 * step_cost + entry_point_gas entry_point_cost

abbrev pub emit_event_cost : ℕ
emit_event_cost = 10 * step_cost

abbrev pub get_block_hash_cost : ℕ
get_block_hash_cost = 50 * step_cost

abbrev pub get_execution_info_cost : ℕ
get_execution_info_cost = 10 * step_cost

abbrev pub get_class_hash_at_cost : ℕ
get_class_hash_at_cost = 50 * step_cost

abbrev pub keccak_cost : ℕ
keccak_cost = 0

abbrev pub keccak_round_cost : ℕ
keccak_round_cost = 180000

abbrev pub replace_class_cost : ℕ
replace_class_cost = 50 * step_cost

abbrev pub send_message_to_l1_cost : ℕ
send_message_to_l1_cost = 50 * step_cost

abbrev pub storage_read_cost : ℕ
storage_read_cost = 50 * step_cost

abbrev pub storage_write_cost : ℕ
storage_write_cost = 50 * step_cost

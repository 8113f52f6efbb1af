-- ===== src/Starknet/Stub/Cheatcode.antt =====
-- src/starknet_stub.rs: cheatcodes, which set what a contract is told and take logs out.
use cairo_native.Prelude.{ℕ, ◌^◌, ltb, if◌then◌else◌, List, [], ◌∷◌, ◌++◌, Option, none, some}
use cairo_native.Starknet.Info.{BlockInfo, TxInfo}
use cairo_native.Starknet.Stub.{StubSyscallHandler, StubEvent, ContractLogs, insert}
use cairo_native.Starknet.Stub.Crypto.{length}
use cairo_native.Emu.Panic.{◌>>=◌}

-- The texts that a selector may be, another text, and bytes that are no text.
pub data Selector : Type 0 where
  set_sequencer_address set_caller_address set_contract_address : Selector
  set_account_contract_address set_transaction_hash set_nonce set_version set_chain_id : Selector
  set_max_fee set_block_number set_block_timestamp set_block_hash set_signature : Selector
  pop_log pop_l2_to_l1_message : Selector
  unknown no_text : Selector

-- `input[0]` and `input[1]`
abbrev pub first : List ℕ → Option ℕ
first [] = none
first (x ∷ xs) = some x

abbrev pub second : List ℕ → Option ℕ
second (x ∷ y ∷ xs) = some y
second _ = none

-- `try_into().unwrap()` to a word of `w` bits.
abbrev pub to_word : ℕ → ℕ → Option ℕ
to_word w x = if ltb x (2 ^ w) then some x else none

abbrev pub set_block : StubSyscallHandler → BlockInfo → StubSyscallHandler
set_block self block = record self {
  execution_info = record self.execution_info { block_info = block };
}

abbrev pub set_tx : StubSyscallHandler → TxInfo → StubSyscallHandler
set_tx self tx = record self { execution_info = record self.execution_info { tx_info = tx } }

-- The front event of a contract's logs, taken out and serialized.
unfoldable pub serialized_log : StubEvent → List ℕ
serialized_log log = length log.keys ∷ log.keys ++ length log.content ∷ log.content

unfoldable pub pop_event :
    StubSyscallHandler → ℕ → Option ContractLogs → StubSyscallHandler × List ℕ
unfolding serialized_log
pop_event self contract none = (self, [])
pop_event self contract (some logs) = elim logs.events [
  | [] ↦ (self, [])
  | event ∷ events ↦ (
    record self { logs = insert self.logs contract (record logs { events = events }) },
    serialized_log event,
  )
]

unfoldable pub pop_message :
    StubSyscallHandler → ℕ → Option ContractLogs → StubSyscallHandler × List ℕ
pop_message self contract none = (self, [])
pop_message self contract (some logs) = elim logs.l2_to_l1_messages [
  | [] ↦ (self, [])
  | (to_address, payload) ∷ messages ↦ (
    record self { logs = insert self.logs contract (record logs { l2_to_l1_messages = messages }) },
    to_address ∷ length payload ∷ payload,
  )
]

unfoldable pub cheatcode :
    Selector → List ℕ → StubSyscallHandler → Option (StubSyscallHandler × List ℕ)
unfolding pop_event pop_message
cheatcode no_text input self = some (self, [])
cheatcode unknown input self = none
cheatcode set_sequencer_address input self = do
  x ← first input
  some (set_block self (record self.execution_info.block_info { sequencer_address = x }), [])
cheatcode set_caller_address input self = do
  x ← first input
  some (record self { execution_info = record self.execution_info { caller_address = x } }, [])
cheatcode set_contract_address input self = do
  x ← first input
  some (record self { execution_info = record self.execution_info { contract_address = x } }, [])
cheatcode set_account_contract_address input self = do
  x ← first input
  some (set_tx self (record self.execution_info.tx_info { account_contract_address = x }), [])
cheatcode set_transaction_hash input self = do
  x ← first input
  some (set_tx self (record self.execution_info.tx_info { transaction_hash = x }), [])
cheatcode set_nonce input self = do
  x ← first input
  some (set_tx self (record self.execution_info.tx_info { nonce = x }), [])
cheatcode set_version input self = do
  x ← first input
  some (set_tx self (record self.execution_info.tx_info { version = x }), [])
cheatcode set_chain_id input self = do
  x ← first input
  some (set_tx self (record self.execution_info.tx_info { chain_id = x }), [])
cheatcode set_max_fee input self = do
  x ← first input
  fee ← to_word 128 x
  some (set_tx self (record self.execution_info.tx_info { max_fee = fee }), [])
cheatcode set_block_number input self = do
  x ← first input
  number ← to_word 64 x
  some (set_block self (record self.execution_info.block_info { block_number = number }), [])
cheatcode set_block_timestamp input self = do
  x ← first input
  timestamp ← to_word 64 x
  some (set_block self (record self.execution_info.block_info { block_timestamp = timestamp }), [])
cheatcode set_block_hash input self = do
  x ← first input
  number ← to_word 64 x
  hash ← second input
  some (record self { block_hash = insert self.block_hash number hash }, [])
cheatcode set_signature input self =
    some (set_tx self (record self.execution_info.tx_info { signature = input }), [])
cheatcode pop_log input self = do
  contract ← first input
  some (pop_event self contract (self.logs contract))
cheatcode pop_l2_to_l1_message input self = do
  contract ← first input
  some (pop_message self contract (self.logs contract))

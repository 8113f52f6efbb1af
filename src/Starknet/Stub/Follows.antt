-- ===== src/Starknet/Stub/Follows.antt =====
-- src/starknet_stub.rs: each system call on storage and logs does what it does to the chain.
use mathlib.Core.Path.{fun_ext}
use cairo_native.Prelude.{
  ℕ, ◌-◌, ◌≡◌, refl, sym, ap, ◌∙◌, arith, ltb, ◌==◌, if◌then◌else◌, Bool-cases, inl, inr, List, [],
  ◌∷◌, ◌++◌, some,
}
use cairo_native.Starknet.Syscall.{
  SyscallResult, ok, err, out_of_gas, deduct_gas, ◌>>=◌, ◌>>◌, done, get, modify, require,
  deduct_gas-then, require-then,
}
use cairo_native.Starknet.Stub.{
  StubSyscallHandler, ContractLogs, HashMap, insert, unwrap_or, storage_read_cost,
  storage_write_cost, emit_event_cost, send_message_to_l1_cost,
}
use cairo_native.Starknet.Stub.Storage.{
  Call, storage_read, storage_write, emit_event, send_message_to_l1, cell, write_cell, no_logs,
  push_event, push_message, unsupported_address_domain,
}
use cairo_native.Starknet.Stub.Replay.{
  Request, read, write, emit, message, request, assign, replay, events_of, messages_of, chain_of,
}

write_cell-cell :
    (storage : HashMap (HashMap ℕ)) (contract address value : ℕ)
    → cell (write_cell storage contract address value)
      ≡ assign (cell storage) contract (assign (cell storage contract) address value)
write_cell-cell storage contract address value = fun_ext λ c. fun_ext λ a. ground arith

pub insert-events :
    (logs : HashMap ContractLogs) (contract : ℕ) (new : ContractLogs)
    → events_of (insert logs contract new) ≡ assign (events_of logs) contract new.events
insert-events logs contract new = fun_ext λ c. ground arith

pub insert-messages :
    (logs : HashMap ContractLogs) (contract : ℕ) (new : ContractLogs)
    → messages_of (insert logs contract new)
      ≡ assign (messages_of logs) contract new.l2_to_l1_messages
insert-messages logs contract new = fun_ext λ c. ground arith

assign-same : {A : Type 0} (f : ℕ → A) (i : ℕ) → assign f i (f i) ≡ f
assign-same f i = fun_ext λ j. ground arith

-- What a handler does with a request, and what the chain does.
pub record Follows (r : Request) (self : StubSyscallHandler) (gas : ℕ) : Type 0 where
  pub self' : StubSyscallHandler
  pub gas' : ℕ
  pub reply : SyscallResult (List ℕ)
  pub handled : request r self gas ≡ some (self', gas', reply)
  pub replayed : replay r (chain_of self gas) ≡ (chain_of self' gas', reply)

-- A call on storage goes on if there is gas and the domain is zero.
in_zero_domain :
    {A : Type 0} (price d : ℕ) (next : Call A) (self : StubSyscallHandler) (gas : ℕ)
    → (deduct_gas price >> (require (d == 0) (unsupported_address_domain ∷ []) >> next)) self gas
      ≡ (if ltb gas price
          then some (self, gas, err (out_of_gas ∷ []))
          else if d == 0
          then next self (gas - price)
          else some (self, gas - price, err (unsupported_address_domain ∷ [])))
in_zero_domain price d next self gas =
    deduct_gas-then price _ self gas
    ∙ ap (λ r. if ltb gas price then some (self, gas, err (out_of_gas ∷ [])) else r)
        (require-then (d == 0) (unsupported_address_domain ∷ []) next self (gas - price))

-- A request that fails and changes nothing but the gas.
refused :
    (r : Request) (self : StubSyscallHandler) (gas gas' : ℕ) (e : ℕ)
    → request r self gas ≡ some (self, gas', err (e ∷ []))
    → replay r (chain_of self gas) ≡ (chain_of self gas', err (e ∷ []))
    → Follows r self gas
refused r self gas gas' e h k = record {
  self' = self;
  gas' = gas';
  reply = err (e ∷ []);
  handled = h;
  replayed = k;
}

module _ (self : StubSyscallHandler) (gas : ℕ) where
  pub read-Follows : (d a : ℕ) → Follows (read d a) self gas
  unfolding request replay storage_read
  read-Follows d a =
      let step =
        in_zero_domain storage_read_cost d
          (get >>= λ s. done (cell s.storage s.execution_info.contract_address a)) self gas in
      elim (Bool-cases (ltb gas storage_read_cost)) [
        | inl e ↦ refused (read d a) self gas gas out_of_gas (rw (step, e) refl) (rw e refl)
        | inr e ↦ elim (Bool-cases (d == 0)) [
          | inl f ↦ record {
            self' = self;
            gas' = gas - storage_read_cost;
            reply = ok (cell self.storage self.execution_info.contract_address a ∷ []);
            handled = rw (step, e, f) refl;
            replayed = rw (e, f) refl;
          }
          | inr f ↦
              refused (read d a) self gas (gas - storage_read_cost) unsupported_address_domain
                (rw (step, e, f) refl) (rw (e, f) refl)
        ]
      ]

  pub write-Follows : (d a v : ℕ) → Follows (write d a v) self gas
  unfolding request replay storage_write
  write-Follows d a v =
      let contract = self.execution_info.contract_address in
      let step =
        in_zero_domain storage_write_cost d
          (modify (λ s. record s {
            storage = write_cell s.storage s.execution_info.contract_address a v;
          }))
          self gas in
      elim (Bool-cases (ltb gas storage_write_cost)) [
        | inl e ↦ refused (write d a v) self gas gas out_of_gas (rw (step, e) refl) (rw e refl)
        | inr e ↦ elim (Bool-cases (d == 0)) [
          | inl f ↦ record {
            self' = record self { storage = write_cell self.storage contract a v };
            gas' = gas - storage_write_cost;
            reply = ok [];
            handled = rw (step, e, f) refl;
            replayed = rw (e, f, sym (write_cell-cell self.storage contract a v)) refl;
          }
          | inr f ↦
              refused (write d a v) self gas (gas - storage_write_cost) unsupported_address_domain
                (rw (step, e, f) refl) (rw (e, f) refl)
        ]
      ]

  pub emit-Follows : (keys content : List ℕ) → Follows (emit keys content) self gas
  unfolding request replay emit_event
  emit-Follows keys content =
      let contract = self.execution_info.contract_address in
      let logs = unwrap_or no_logs (self.logs contract) in
      let new : ContractLogs = record logs {
        events = logs.events ++ record { keys = keys; content = content } ∷ [];
      } in
      let step = deduct_gas-then emit_event_cost (modify (push_event keys content)) self gas in
      elim (Bool-cases (ltb gas emit_event_cost)) [
        | inl e ↦
            refused (emit keys content) self gas gas out_of_gas (rw (step, e) refl) (rw e refl)
        | inr e ↦ record {
          self' = push_event keys content self;
          gas' = gas - emit_event_cost;
          reply = ok [];
          handled = rw (step, e) refl;
          replayed =
              rw
                (
                  e,
                  insert-events self.logs contract new,
                  insert-messages self.logs contract new,
                  assign-same (messages_of self.logs) contract,
                )
                refl;
        }
      ]

  pub message-Follows : (to : ℕ) (payload : List ℕ) → Follows (message to payload) self gas
  unfolding request replay send_message_to_l1
  message-Follows to payload =
      let contract = self.execution_info.contract_address in
      let logs = unwrap_or no_logs (self.logs contract) in
      let new : ContractLogs = record logs {
        l2_to_l1_messages = logs.l2_to_l1_messages ++ (to, payload) ∷ [];
      } in
      let step =
        deduct_gas-then send_message_to_l1_cost (modify (push_message to payload)) self gas in
      elim (Bool-cases (ltb gas send_message_to_l1_cost)) [
        | inl e ↦
            refused (message to payload) self gas gas out_of_gas (rw (step, e) refl) (rw e refl)
        | inr e ↦ record {
          self' = push_message to payload self;
          gas' = gas - send_message_to_l1_cost;
          reply = ok [];
          handled = rw (step, e) refl;
          replayed =
              rw
                (
                  e,
                  insert-events self.logs contract new,
                  insert-messages self.logs contract new,
                  assign-same (events_of self.logs) contract,
                )
                refl;
        }
      ]

  -- A queue that is put back as it was.
  pub same_messages :
      (contract : ℕ) (logs : ContractLogs)
      → self.logs contract ≡ some logs
      → assign (messages_of self.logs) contract logs.l2_to_l1_messages ≡ messages_of self.logs
  same_messages contract logs e =
      ap (assign (messages_of self.logs) contract) (rw (messages_of, e) refl)
      ∙ assign-same (messages_of self.logs) contract

  pub same_events :
      (contract : ℕ) (logs : ContractLogs)
      → self.logs contract ≡ some logs
      → assign (events_of self.logs) contract logs.events ≡ events_of self.logs
  same_events contract logs e =
      ap (assign (events_of self.logs) contract) (rw (events_of, e) refl)
      ∙ assign-same (events_of self.logs) contract

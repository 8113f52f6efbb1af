-- ===== src/Starknet/Stub/Runs.antt =====
-- src/starknet_stub.rs: runs of requests to the handler do what they do to the chain.
use cairo_native.Prelude.{ℕ, ◌≡◌, refl, Option-cases, inl, inr, List, [], ◌∷◌, ◌++◌, some}
use cairo_native.Starknet.Syscall.{ok}
use cairo_native.Starknet.Stub.{StubSyscallHandler, StubEvent, ContractLogs, insert}
use cairo_native.Starknet.Stub.Cheatcode.{cheatcode, pop_event, pop_message, serialized_log}
use cairo_native.Starknet.Stub.Crypto.{length}
use cairo_native.Starknet.Stub.Replay.{
  Request, read, write, emit, message, enter, take_log, take_message, request, replay, chain_of,
  Replies, run_requests, replay_all,
}
use cairo_native.Starknet.Stub.Follows.{
  insert-events, insert-messages, same_messages, same_events, Follows, read-Follows, write-Follows,
  emit-Follows, message-Follows,
}

module _ (self : StubSyscallHandler) (gas : ℕ) where
  take_log-Follows : (contract : ℕ) → Follows (take_log contract) self gas
  unfolding request replay cheatcode pop_event serialized_log
  take_log-Follows contract = elim (Option-cases (self.logs contract)) [
    | inl e ↦ record {
      self' = self;
      gas' = gas;
      reply = ok [];
      handled = rw e refl;
      replayed = rw (replay, e) refl;
    }
    | inr (logs, e) ↦ go logs logs.events e refl
  ]
    where
      go :
          (logs : ContractLogs) (queue : List StubEvent)
          → self.logs contract ≡ some logs
          → logs.events ≡ queue
          → Follows (take_log contract) self gas
      go logs [] e f = record {
        self' = self;
        gas' = gas;
        reply = ok [];
        handled = rw (e, pop_event, f) refl;
        replayed = rw (replay, e, f) refl;
      }
      go logs (event ∷ queue) e f =
          let new : ContractLogs = record logs { events = queue } in
          record {
            self' = record self { logs = insert self.logs contract new };
            gas' = gas;
            reply = ok (length event.keys ∷ event.keys ++ length event.content ∷ event.content);
            handled = rw (e, pop_event, f) refl;
            replayed =
                rw
                  (
                    replay,
                    e,
                    f,
                    insert-events self.logs contract new,
                    insert-messages self.logs contract new,
                    same_messages self gas contract logs e,
                  )
                  refl;
          }

  take_message-Follows : (contract : ℕ) → Follows (take_message contract) self gas
  unfolding request replay cheatcode pop_message
  take_message-Follows contract = elim (Option-cases (self.logs contract)) [
    | inl e ↦ record {
      self' = self;
      gas' = gas;
      reply = ok [];
      handled = rw e refl;
      replayed = rw (replay, e) refl;
    }
    | inr (logs, e) ↦ go logs logs.l2_to_l1_messages e refl
  ]
    where
      go :
          (logs : ContractLogs) (queue : List (ℕ × List ℕ))
          → self.logs contract ≡ some logs
          → logs.l2_to_l1_messages ≡ queue
          → Follows (take_message contract) self gas
      go logs [] e f = record {
        self' = self;
        gas' = gas;
        reply = ok [];
        handled = rw (e, pop_message, f) refl;
        replayed = rw (replay, e, f) refl;
      }
      go logs ((to, payload) ∷ queue) e f =
          let new : ContractLogs = record logs { l2_to_l1_messages = queue } in
          record {
            self' = record self { logs = insert self.logs contract new };
            gas' = gas;
            reply = ok (to ∷ length payload ∷ payload);
            handled = rw (e, pop_message, f) refl;
            replayed =
                rw
                  (
                    replay,
                    e,
                    f,
                    insert-events self.logs contract new,
                    insert-messages self.logs contract new,
                    same_events self gas contract logs e,
                  )
                  refl;
          }

-- A request to the handler does what it does to the chain.
request-Follows : (r : Request) (self : StubSyscallHandler) (gas : ℕ) → Follows r self gas
unfolding request cheatcode replay
request-Follows (read d a) self gas = read-Follows self gas d a
request-Follows (write d a v) self gas = write-Follows self gas d a v
request-Follows (emit keys content) self gas = emit-Follows self gas keys content
request-Follows (message to payload) self gas = message-Follows self gas to payload
request-Follows (enter contract) self gas = record {
  self' = record self {
    execution_info = record self.execution_info { contract_address = contract };
  };
  gas' = gas;
  reply = ok [];
  handled = refl;
  replayed = refl;
}
request-Follows (take_log contract) self gas = take_log-Follows self gas contract
request-Follows (take_message contract) self gas = take_message-Follows self gas contract

-- What the handler does with a list of requests, and what the chain does.
pub record RunFollows (rs : List Request) (self : StubSyscallHandler) (gas : ℕ) : Type 0 where
  pub self' : StubSyscallHandler
  pub gas' : ℕ
  pub replies : Replies
  pub handled : run_requests rs self gas ≡ some (self', gas', replies)
  pub replayed : replay_all rs (chain_of self gas) ≡ (chain_of self' gas', replies)

-- From any state of the handler and with any gas, each list of reads, writes, events, messages,
-- changes of the contract and takings of logs is handled without a stop, with the replies of the
-- chain that the handler keeps, and to the state that this chain ends in: cells that are zero at
-- first and hold the last value written by the contract, queues of events and of messages for
-- each contract, and a fixed price for each call, without which it fails and changes nothing.
pub run_requests-RunFollows :
    (rs : List Request) (self : StubSyscallHandler) (gas : ℕ) → RunFollows rs self gas
unfolding run_requests replay_all
run_requests-RunFollows [] self gas = record {
  self' = self;
  gas' = gas;
  replies = [];
  handled = refl;
  replayed = refl;
}
run_requests-RunFollows (r ∷ rs) self gas =
    let first = request-Follows r self gas in
    let rest = run_requests-RunFollows rs first.self' first.gas' in
    record {
      self' = rest.self';
      gas' = rest.gas';
      replies = first.reply ∷ rest.replies;
      handled = rw (run_requests, first.handled, rest.handled) refl;
      replayed = rw (replay_all, first.replayed, rest.replayed) refl;
    }

-- ===== src/Starknet/Stub/Context.antt =====
-- src/starknet_stub.rs: a call of another contract runs in that contract's context, and the
-- caller's context is there again afterwards.
use cairo_native.Prelude.{
  ℕ, ◌+◌, ◌-◌, ◌≤◌, ◌%◌, ◌^◌, ◌≡◌, refl, arith, Bool, Bool-cases, Option-cases, inl, inr, ltb,
  if◌then◌else◌, List, [], ◌∷◌, Option, none, some,
}
use cairo_native.Starknet.Syscall.{
  SyscallResult, ok, err, ◌>>=◌, ◌>>◌, done, attempted, deduct_gas, carry, deduct_gas-then,
}
use cairo_native.Starknet.Stub.{StubSyscallHandler, insert, call_contract_cost, deploy_cost}
use cairo_native.Starknet.Stub.Storage.{Call}
use cairo_native.Starknet.Stub.Contracts.{
  Addresses, with_addresses, open_caller_context, close_caller_context, Invoke, call_entry_point,
  record_run, remaining, to_values,
}
use cairo_native.Starknet.Stub.Calls.{
  call_in, construct, deploy, call_contract, with_reason, with_addr, unless_deployed,
  entrypoint_failed, constructor_failed, deployed_address, same_felts,
}
use cairo_native.ExecutionResult.{Value, ExecutionResult, nil, cons, array, struct_value}
use cairo_native.Starknet.Result.{read_contract_result}

-- The addresses that a contract is told of: its own and its caller's.
abbrev pub addresses : StubSyscallHandler → Addresses
addresses self = (self.execution_info.contract_address, self.execution_info.caller_address)

-- Unless the process stops: the addresses afterwards, and a bound on the gas.
abbrev pub Within :
    {A : Type 0} → Addresses → ℕ → Option (StubSyscallHandler × ℕ × SyscallResult A) → Type 0
Within addrs bound none = Unit
Within addrs bound (some (self, gas, reply)) = (addresses self ≡ addrs) × (gas ≤ bound)

-- A run returns at most the gas that it was given.
abbrev pub Frugal : Invoke → Type 0
Frugal invoke =
    (f : ℕ) (args : List Value) (gas : ℕ) (self self' : StubSyscallHandler)
    (result : ExecutionResult) (left : ℕ)
    → invoke f args (some gas) self ≡ some (self', result)
    → result.remaining_gas ≡ some left
    → left ≤ gas

abbrev pub FrugalExecutor : Option Invoke → Type 0
FrugalExecutor none = Unit
FrugalExecutor (some invoke) = Frugal invoke

module _ {addrs : Addresses} {bound : ℕ} where
  carry-Within :
      {A B : Type 0} (next : A → Call B) (r : Option (StubSyscallHandler × ℕ × SyscallResult A))
      → Within addrs bound r
      → ((a : A) (self : StubSyscallHandler) (gas : ℕ)
          → addresses self ≡ addrs
          → gas ≤ bound
          → Within addrs bound (next a self gas))
      → Within addrs bound (carry next r)
  carry-Within next none within later = tt
  carry-Within next (some (self, gas, ok a)) (e, h) later = later a self gas e h
  carry-Within next (some (self, gas, err felts)) (e, h) later = (e, h)

  with_reason-Within :
      {A B : Type 0} (f : A → B) (reason : ℕ) (res : SyscallResult A) (self : StubSyscallHandler)
      (gas : ℕ)
      → addresses self ≡ addrs
      → gas ≤ bound
      → Within addrs bound (with_reason f reason res self gas)
  with_reason-Within f reason (ok a) self gas e h = (e, h)
  with_reason-Within f reason (err felts) self gas e h = (e, h)

weaken :
    {A : Type 0} (addrs : Addresses) (low bound : ℕ)
    (r : Option (StubSyscallHandler × ℕ × SyscallResult A))
    → Within addrs low r
    → low ≤ bound
    → Within addrs bound r
weaken addrs low bound none within h = tt
weaken addrs low bound (some (self, gas, reply)) (e, k) h = (e, omega (arith, k, h))

le_refl : (n : ℕ) → n ≤ n
le_refl n = omega arith

mod-le : (gas cost : ℕ) → (gas + cost) % 2 ^ 64 ≤ gas + cost
mod-le gas cost = omega arith

-- A call that is paid for first.
paid-Within :
    {A : Type 0} {addrs : Addresses} (price : ℕ) (next : Call A) (self : StubSyscallHandler)
    (gas : ℕ)
    → addresses self ≡ addrs
    → (price ≤ gas → Within addrs gas (next self (gas - price)))
    → Within addrs gas ((deduct_gas price >> next) self gas)
paid-Within {A} {addrs} price next self gas e within = elim (Bool-cases (ltb gas price)) [
  | inl f ↦ rw (deduct_gas-then price next self gas, f) (e, le_refl gas)
  | inr f ↦ rw (deduct_gas-then price next self gas, f) (within (ground (arith, f)))
]

-- The gas after the run of an entry point.
abbrev GasWithin : {A : Type 0} → ℕ → Option (StubSyscallHandler × ℕ × SyscallResult A) → Type 0
GasWithin bound none = Unit
GasWithin bound (some (self, gas, reply)) = gas ≤ bound

record_run-GasWithin :
    (self : StubSyscallHandler) (result : ExecutionResult) (gas bound : ℕ)
    → gas ≤ bound
    → ((left : ℕ) → result.remaining_gas ≡ some left → left ≤ bound)
    → GasWithin bound (record_run (self, result) gas)
unfolding record_run
record_run-GasWithin self result gas bound h within =
    elim (Option-cases (read_contract_result result.return_value)) [
      | inl e ↦ rw (GasWithin, e) tt
      | inr (value, e) ↦ rw (GasWithin, e) (left_over result.remaining_gas within)
    ]
  where
    left_over :
        (o : Option ℕ) → ((left : ℕ) → o ≡ some left → left ≤ bound) → remaining gas o ≤ bound
    left_over none within = h
    left_over (some left) within = within left refl

module _ (entry_point_cost : ℕ) where
  call_entry_point-GasWithin :
      (executor : Option Invoke) (f : ℕ) (calldata : List ℕ) (self : StubSyscallHandler) (gas : ℕ)
      → FrugalExecutor executor
      → GasWithin
          (gas + entry_point_cost)
          (call_entry_point entry_point_cost executor f calldata self gas)
  unfolding call_entry_point
  call_entry_point-GasWithin none f calldata self gas frugal = tt
  call_entry_point-GasWithin (some invoke) f calldata self gas frugal =
      let args = struct_value (cons (array (to_values calldata)) nil) ∷ [] in
      let given = (gas + entry_point_cost) % 2 ^ 64 in
      elim (Option-cases (invoke f args (some given) self)) [
        | inl e ↦ rw e tt
        | inr ((self', result), e) ↦ rw e (
            record_run-GasWithin self' result gas (gas + entry_point_cost) (omega arith) (λ left g.
              omega (
                arith,
                frugal f args given self self' result left e g,
                mod-le gas entry_point_cost,
              )))
      ]

  -- The context is opened, the entry point is run, and the context is closed.
  call_in-Within :
      (executor : Option Invoke) (contract caller f : ℕ) (calldata : List ℕ)
      (self : StubSyscallHandler) (gas : ℕ)
      → FrugalExecutor executor
      → Within
          (addresses self)
          (gas + entry_point_cost)
          (call_in entry_point_cost executor contract caller f calldata self gas)
  unfolding open_caller_context close_caller_context
  call_in-Within executor contract caller f calldata self gas frugal =
      closed
        (call_entry_point entry_point_cost executor f calldata
          (with_addresses (contract, caller) self) gas)
        (call_entry_point-GasWithin executor f calldata (with_addresses (contract, caller) self) gas
          frugal)
    where
      closed :
          (r : Option (StubSyscallHandler × ℕ × SyscallResult (List ℕ)))
          → GasWithin (gas + entry_point_cost) r
          → Within
              (addresses self)
              (gas + entry_point_cost)
              (carry (λ res. close_caller_context (addresses self) >> done res) (attempted r))
      closed none h = tt
      closed (some (self', gas', reply)) h = (refl, h)

  -- A call in another context whose error gets a reason.
  entered :
      {A : Type 0} (executor : Option Invoke)
      → FrugalExecutor executor
      → (contract caller f : ℕ) (calldata : List ℕ) (self : StubSyscallHandler)
        (gas bound reason : ℕ) (of : List ℕ → A)
      → gas + entry_point_cost ≤ bound
      → Within (addresses self) bound (
          (call_in entry_point_cost executor contract caller f calldata >>= with_reason of reason)
            self gas)
  entered executor frugal contract caller f calldata self gas bound reason of h =
      let run = call_in entry_point_cost executor contract caller f calldata self gas in
      carry-Within (with_reason of reason) run
        (weaken (addresses self) (gas + entry_point_cost) bound run
          (call_in-Within executor contract caller f calldata self gas frugal) h)
        (λ res s g e k. with_reason-Within of reason res s g e k)

  -- Whatever the executor does to the handler, as long as it leaves no more gas than it is given:
  -- after a call of a contract that does not stop the process, with or without an error, the
  -- addresses of the contract and of its caller are what they were before, and there is no more
  -- gas than before, although the price of an entry point is lent to the run.
  pub call_contract-Within :
      (executor : Option Invoke)
      → FrugalExecutor executor
      → (address selector : ℕ) (calldata : List ℕ) (self : StubSyscallHandler) (gas : ℕ)
      → Within
          (addresses self)
          gas
          (call_contract entry_point_cost executor address selector calldata self gas)
  unfolding call_contract
  call_contract-Within executor frugal address selector calldata self gas =
      paid-Within (call_contract_cost entry_point_cost) _ self gas refl λ enough.
        elim (Option-cases (self.deployed_contracts address)) [
          | inl e ↦ rw e (refl, omega arith)
          | inr (class_hash, e) ↦ elim (Option-cases (self.contracts_info class_hash)) [
            | inl f ↦ rw (e, f) tt
            | inr (info, f) ↦ elim (Option-cases (info.externals selector)) [
              | inl k ↦ rw (e, f, k) (refl, omega arith)
              | inr (entry_point, k) ↦
                  rw (e, f, k)
                    (entered executor frugal address _ entry_point calldata self _ gas
                      entrypoint_failed same_felts (omega (arith, enough)))
            ]
          ]
        ]

  construct-Within :
      (hash_array : List ℕ → ℕ) (executor : Option Invoke)
      → FrugalExecutor executor
      → (address deployer : ℕ) (calldata : List ℕ) (constructor_id : Option ℕ)
        (self : StubSyscallHandler) (gas bound : ℕ)
      → gas + entry_point_cost ≤ bound
      → Within (addresses self) bound (
          construct hash_array entry_point_cost executor address deployer calldata constructor_id
            self gas)
  unfolding construct
  construct-Within hash executor frugal address deployer calldata (some f) self gas bound h =
      entered executor frugal address deployer f calldata self gas bound constructor_failed
        (with_addr address) h
  construct-Within hash executor frugal address deployer [] none self gas bound h =
      (refl, omega (arith, h))
  construct-Within hash executor frugal address deployer (x ∷ calldata) none self gas bound h =
      (refl, omega (arith, h))

  unless_deployed-Within :
      {A : Type 0} {addrs : Addresses} {bound : ℕ} (old : Option ℕ) (next : Call A)
      (self : StubSyscallHandler) (gas : ℕ)
      → addresses self ≡ addrs
      → gas ≤ bound
      → Within addrs bound (next self gas)
      → Within addrs bound (unless_deployed old next self gas)
  unless_deployed-Within none next self gas e h within = within
  unless_deployed-Within (some class_hash) next self gas e h within = (e, h)

  -- The same for a deployment, whether a constructor runs or not.
  pub deploy-Within :
      (hash_array : List ℕ → ℕ) (executor : Option Invoke)
      → FrugalExecutor executor
      → (class_hash salt : ℕ) (calldata : List ℕ) (from_zero : Bool) (self : StubSyscallHandler)
        (gas : ℕ)
      → Within
          (addresses self)
          gas
          (deploy hash_array entry_point_cost executor class_hash salt calldata from_zero self gas)
  unfolding deploy
  deploy-Within hash_array executor frugal class_hash salt calldata from_zero self gas =
      paid-Within (deploy_cost entry_point_cost) _ self gas refl λ enough.
        elim (Option-cases (self.contracts_info class_hash)) [
          | inl e ↦ rw e (refl, omega arith)
          | inr (info, e) ↦
              let deployer = if from_zero then 0 else self.execution_info.contract_address in
              let address = deployed_address hash_array deployer class_hash salt calldata in
              let self' : StubSyscallHandler = record self {
                deployed_contracts = insert self.deployed_contracts address class_hash;
              } in
              rw e (
                unless_deployed-Within (self.deployed_contracts address)
                  (construct hash_array entry_point_cost executor address deployer calldata
                    info.constructor_id)
                  self' _ refl (omega arith)
                  (construct-Within hash_array executor frugal address deployer calldata
                    info.constructor_id self' _ gas (omega (arith, enough))))
        ]

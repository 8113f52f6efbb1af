-- ===== src/Starknet/Stub/Calls.antt =====
-- src/starknet_stub.rs: deployments and calls of contracts.
use cairo_native.Prelude.{
  ℕ, ◌%◌, ◌-◌, ◌^◌, Bool, if◌then◌else◌, List, [], ◌∷◌, ◌++◌, Option, none, some,
}
use cairo_native.Starknet.Syscall.{
  SyscallResult, ok, err, ◌>>=◌, ◌>>◌, done, fail, ok_or, get, modify, expect, attempt, deduct_gas,
}
use cairo_native.Starknet.Stub.{insert, remove, call_contract_cost, deploy_cost}
use cairo_native.Starknet.Stub.Storage.{Call}
use cairo_native.Starknet.Stub.Contracts.{
  class_hash_not_found, open_caller_context, close_caller_context, Invoke, call_entry_point,
}

-- The errors' texts as felts.
abbrev pub contract_already_deployed : ℕ
contract_already_deployed = 422510393098670745226895221632837105094718414917529771787588

abbrev pub constructor_failed : ℕ
constructor_failed = 5863509576869246649421104258326884634084676

abbrev pub invalid_calldata_len : ℕ
invalid_calldata_len = 418503298271971407217940595948527438611899761998

abbrev pub class_hash_not_declared : ℕ
class_hash_not_declared = 6445855526543742234424738320591137923774065490617582916

abbrev pub entrypoint_not_found : ℕ
entrypoint_not_found = 395667166766220954646595715523875409380037185092

abbrev pub entrypoint_failed : ℕ
entrypoint_failed = 23583600924385842957889778338389964899652

abbrev pub contract_not_deployed : ℕ
contract_not_deployed = 98373366775612986000932873509893791205093161911620

-- "STARKNET_CONTRACT_ADDRESS" as a felt, and the bound 2 ^ 251 - 256 of addresses.
abbrev pub contract_address_prefix : ℕ
contract_address_prefix = 523065374597054866729014270389667305596563390979550329787219

abbrev pub contract_address_bound : ℕ
contract_address_bound = 2 ^ 251 - 256

-- `res.push(..)` on the felts of an error.
abbrev pub with_reason : {A B : Type 0} → (A → B) → ℕ → SyscallResult A → Call B
with_reason f reason (ok a) = done (f a)
with_reason f reason (err e) = fail (e ++ reason ∷ [])

abbrev pub with_addr : ℕ → List ℕ → ℕ × List ℕ
with_addr address felts = (address, felts)

abbrev pub same_felts : List ℕ → List ℕ
same_felts felts = felts

abbrev pub is_empty : List ℕ → Bool
is_empty [] = Bool.true
is_empty (x ∷ xs) = Bool.false

-- The address was free.
abbrev pub unless_deployed : {A : Type 0} → Option ℕ → Call A → Call A
unless_deployed none next = next
unless_deployed (some class_hash) next = fail (contract_already_deployed ∷ [])

module _ (entry_point_cost : ℕ) (executor : Option Invoke) where
  -- A call in the context of another contract, whose addresses are put back after it.
  abbrev pub call_in :
      (contract caller : ℕ) (entry_point : ℕ) (calldata : List ℕ) → Call (SyscallResult (List ℕ))
  call_in contract caller entry_point calldata = do
    old_addrs ← open_caller_context (contract, caller)
    res ← attempt (call_entry_point entry_point_cost executor entry_point calldata)
    close_caller_context old_addrs
    done res

  unfoldable pub library_call : (class_hash function_selector : ℕ) → List ℕ → Call (List ℕ)
  unfolding deduct_gas call_entry_point
  library_call class_hash function_selector calldata = do
    deduct_gas (call_contract_cost entry_point_cost)
    self ← get
    contract_info ← ok_or (self.contracts_info class_hash) (class_hash_not_declared ∷ [])
    entry_point ←
        ok_or (contract_info.externals function_selector)
          (entrypoint_not_found ∷ entrypoint_failed ∷ [])
    res ← attempt (call_entry_point entry_point_cost executor entry_point calldata)
    with_reason same_felts entrypoint_failed res

  unfoldable pub call_contract : (address entry_point_selector : ℕ) → List ℕ → Call (List ℕ)
  unfolding deduct_gas
  call_contract address entry_point_selector calldata = do
    deduct_gas (call_contract_cost entry_point_cost)
    self ← get
    class_hash ←
        ok_or (self.deployed_contracts address) (contract_not_deployed ∷ entrypoint_failed ∷ [])
    contract_info ← expect (self.contracts_info class_hash)
    entry_point ←
        ok_or (contract_info.externals entry_point_selector)
          (entrypoint_not_found ∷ entrypoint_failed ∷ [])
    res ← call_in address self.execution_info.contract_address entry_point calldata
    with_reason same_felts entrypoint_failed res

-- `Pedersen::hash_array` is that of a library of felts.
unfoldable pub deployed_address : (List ℕ → ℕ) → (deployer class_hash salt : ℕ) → List ℕ → ℕ
deployed_address hash_array deployer class_hash salt calldata =
    hash_array (contract_address_prefix ∷ deployer ∷ salt ∷ class_hash ∷ hash_array calldata ∷ [])
    % contract_address_bound

module _ (hash_array : List ℕ → ℕ) (entry_point_cost : ℕ) (executor : Option Invoke) where
  -- The constructor is run if the class has one.
  unfoldable pub construct : (address deployer : ℕ) → List ℕ → Option ℕ → Call (ℕ × List ℕ)
  construct address deployer calldata (some constructor_id) = do
    res ← call_in entry_point_cost executor address deployer constructor_id calldata
    with_reason (with_addr address) constructor_failed res
  construct address deployer calldata none =
      if is_empty calldata
      then done (address, [])
      else (modify
            (λ self. record self { deployed_contracts = remove self.deployed_contracts address })
          >> fail (invalid_calldata_len ∷ []))

  unfoldable pub deploy :
      (class_hash contract_address_salt : ℕ)
      → List ℕ
      → (deploy_from_zero : Bool) → Call (ℕ × List ℕ)
  unfolding deduct_gas deployed_address construct
  deploy class_hash contract_address_salt calldata deploy_from_zero = do
    deduct_gas (deploy_cost entry_point_cost)
    self ← get
    let deployer = if deploy_from_zero then 0 else self.execution_info.contract_address
    let address = deployed_address hash_array deployer class_hash contract_address_salt calldata
    contract_info ← ok_or (self.contracts_info class_hash) (class_hash_not_found ∷ [])
    modify (λ self. record self {
      deployed_contracts = insert self.deployed_contracts address class_hash;
    })
    unless_deployed (self.deployed_contracts address)
        (construct address deployer calldata contract_info.constructor_id)

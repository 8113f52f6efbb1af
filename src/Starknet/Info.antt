-- ===== src/Starknet/Info.antt =====
-- cairo-starknet-syscalls/src/lib.rs: what a contract is told of its execution.
use cairo_native.Prelude.{ℕ, List, Bool}

pub record U256 : Type 0 where
  pub lo : ℕ
  pub hi : ℕ

-- `Secp256k1Point` and `Secp256r1Point`
pub record Secp256Point : Type 0 where
  pub x : U256
  pub y : U256
  pub is_infinity : Bool

pub record BlockInfo : Type 0 where
  pub block_number : ℕ
  pub block_timestamp : ℕ
  pub sequencer_address : ℕ

pub record TxInfo : Type 0 where
  pub version : ℕ
  pub account_contract_address : ℕ
  pub max_fee : ℕ
  pub signature : List ℕ
  pub transaction_hash : ℕ
  pub chain_id : ℕ
  pub nonce : ℕ

pub record ResourceBounds : Type 0 where
  pub resource : ℕ
  pub max_amount : ℕ
  pub max_price_per_unit : ℕ

pub record TxV2Info : Type 0 where
  pub version : ℕ
  pub account_contract_address : ℕ
  pub max_fee : ℕ
  pub signature : List ℕ
  pub transaction_hash : ℕ
  pub chain_id : ℕ
  pub nonce : ℕ
  pub resource_bounds : List ResourceBounds
  pub tip : ℕ
  pub paymaster_data : List ℕ
  pub nonce_data_availability_mode : ℕ
  pub fee_data_availability_mode : ℕ
  pub account_deployment_data : List ℕ

pub record TxV3Info : Type 0 where
  pub version : ℕ
  pub account_contract_address : ℕ
  pub max_fee : ℕ
  pub signature : List ℕ
  pub transaction_hash : ℕ
  pub chain_id : ℕ
  pub nonce : ℕ
  pub resource_bounds : List ResourceBounds
  pub tip : ℕ
  pub paymaster_data : List ℕ
  pub nonce_data_availability_mode : ℕ
  pub fee_data_availability_mode : ℕ
  pub account_deployment_data : List ℕ
  pub proof_facts : List ℕ

-- `ExecutionInfo`, `ExecutionInfoV2` and `ExecutionInfoV3`, by what they say of the transaction.
pub record ExecutionInfo (Tx : Type 0) : Type 0 where
  pub block_info : BlockInfo
  pub tx_info : Tx
  pub caller_address : ℕ
  pub contract_address : ℕ
  pub entry_point_selector : ℕ

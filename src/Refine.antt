-- ===== src/Refine.antt =====
-- The native code does what the interpreter says: where the interpreter's values are given to the
-- native code as bit patterns, both take the same branch, with results that match again.
pub mod Encodes
pub mod Remade
pub mod Int
pub mod Sint
pub mod BoundedInt
pub mod Cast
pub mod Dict
pub mod Felt252
mod FeltExamples
pub mod CastExamples
pub mod Examples
pub mod IntExamples
pub mod Gas
mod GasExamples
pub mod Bool
mod BoolExamples

-- ===== src/Mlir.antt =====
-- The operations of MLIR's arith dialect (with the two overflow intrinsics of LLVM) that the
-- generated code runs. They are not part of the repository, so they are a parameter: the record
-- `Mlir` has the operations over bit patterns, which are numbers below 2 ^ width, and `IsMlir` has
-- what their documentation states. `Wrapping` shows that it can hold.
pub mod Laws
pub mod Wrapping
pub mod Defs
pub use Defs.*

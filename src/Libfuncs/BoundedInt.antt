-- ===== src/Libfuncs/BoundedInt.antt =====
-- src/libfuncs/bounded_int.rs: arithmetic on integers with static bounds, which are stored by
-- their distance from the lower bound, mixed with the plain integer types.
pub mod Operand
pub mod Arith
pub mod Cases
pub mod Select
pub mod Stored
pub mod Convert
pub mod Sums
pub mod Products
pub mod Division
pub mod Compare
pub mod Branches

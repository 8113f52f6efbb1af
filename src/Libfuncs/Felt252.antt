-- ===== src/Libfuncs/Felt252.antt =====
-- src/libfuncs/felt252.rs: arithmetic on felts, which are words of 252 bits below the prime.
-- `Build` has the builders, `Sums` what addition and subtraction do.
pub mod Build
pub mod Sums
pub mod Examples

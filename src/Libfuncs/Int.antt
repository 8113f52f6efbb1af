-- ===== src/Libfuncs/Int.antt =====
-- src/libfuncs/int.rs: the library functions on the plain integer types, in the order of the
-- builders, and what the emitted code does. The runtime function that takes a square root is a
-- parameter.
pub mod Operation
pub mod Felt
pub mod Overflow
pub mod Felts
pub mod Halves
pub mod WideMul
pub mod Examples

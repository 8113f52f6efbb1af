-- ===== src/Libfuncs/Gas.antt =====
-- src/libfuncs/gas.rs: payments from the gas counter.
pub mod Build
pub mod Cost
pub mod Laws
pub mod Examples

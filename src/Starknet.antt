-- ===== src/Starknet.antt =====
-- cairo-starknet-syscalls/src/lib.rs: the data of system calls; src/starknet_stub.rs: a handler of
-- system calls that keeps a simulated chain (Stub). Felts, addresses and hashes are numbers.
pub mod Info
pub mod Syscall
pub mod Result
pub mod Stub

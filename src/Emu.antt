-- ===== src/Emu.antt =====
-- debug_utils/sierra-emu: the interpreter of Sierra, which says what a library function means. A
-- step that panics is `none`.
pub mod Panic
pub mod Value
pub mod Numbers
pub mod BoundedInt
pub mod Int
pub mod Cast
pub mod Is
pub mod Items
pub mod Array
pub mod Compound
pub mod Dict
pub mod Bool
pub mod Felt252
pub mod Dump
pub mod Vm
pub mod Gas
pub mod Circuit

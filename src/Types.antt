-- ===== src/Types.antt =====
-- src/types.rs and src/types/: the concrete types of a Sierra program.
pub mod Defs
pub mod Integer
pub mod Layout
pub use Defs.*

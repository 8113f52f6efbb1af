-- ===== src/Types/Layout.antt =====
-- Memory layouts: `Layout` of Rust's core library, get_integer_layout, padding_needed_for and
-- layout_repeat of src/utils.rs, the layouts of the types (`Types`), and which types have no size or
-- stay in memory (`Flags`).
pub mod Defs
pub mod Types
pub mod Variants
pub mod Rounding
pub mod Bounds
pub mod Payloads
pub mod Zst
pub mod Flags
mod Examples

-- ===== src/Num.antt =====
-- Numbers: bit lengths and residues.
pub mod Bits
pub mod Wrap

-- ===== src/Metadata.antt =====
-- src/metadata.rs and src/metadata/: what the compiler is told besides the program.
pub mod Gas

-- ===== src/Libfuncs.antt =====
-- src/libfuncs.rs and src/libfuncs/: the code that is generated for a library function. A builder
-- runs when a program is compiled and may fail; what it emits runs on the arguments' bit patterns
-- and jumps to a branch with its results. A model takes both steps at once: it returns the error
-- of the builder, or the branch and the patterns that are handed to it.
pub mod Counter
pub mod BoundedInt
pub mod Int
pub mod Felt252
pub mod Cast
pub mod Gas
pub mod Bool

-- ===== src/Refine/BoundedInt.antt =====
-- Library functions on bounded integers: on arguments that encode one another, the interpreter
-- and the code that `build` emits go on in the same branch with results that encode one another.
pub mod Arith
pub mod Branches

-- ===== src/Utils.antt =====
-- src/utils.rs and src/utils/: helpers on integer ranges, and the costs of the builtins.
pub mod RangeExt
pub mod BuiltinCosts

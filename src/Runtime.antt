-- ===== src/Runtime.antt =====
-- src/runtime.rs: what compiled code calls.
pub mod Dict
pub mod DictKeys
pub mod DictMap
mod DictExamples

-- ===== src/Libfuncs/Cast.antt =====
-- src/libfuncs/cast.rs: conversions between integer types. `Build` has the builders, `Widths` the
-- words in which they compute, `Represent` the steps from a pattern to an integer and back,
-- `Upcast`, `UpcastFelt` and `Downcast` what they do.
pub mod Build
pub mod Widths
pub mod Upcast
pub mod UpcastFelt
pub mod Represent
pub mod Downcast

-- ===== src/Utils/RangeExt.antt =====
-- src/utils/range_ext.rs: the widths in which the values of a range are stored and computed with.
-- `BigInt::bits` is `bits`; a width is a number of any size, where the source casts to `u32`.
pub mod Laws
pub mod Defs
pub mod Encoding
mod EncodingExamples
pub use Defs.{Range}
unfoldable pub use Defs.{size, zero_based_width, zero_based_bit_width, repr_bit_width}

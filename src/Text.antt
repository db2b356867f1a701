-- ===== src/Text.antt =====
-- release/common/static_utils.h: the text helpers of the program, over lists of bytes.
pub mod Chars
pub mod Trim
pub mod Split
pub mod Subst
pub mod Lines
pub mod Find
mod Tests
mod Library
pub mod QuasiUrl
pub mod Unsigned
pub mod Decimal
pub mod Case
pub mod Hex
pub mod Edit
pub mod Words
pub mod Pages
pub mod Sections
pub mod Attributes
pub mod Dates
pub mod Implode
pub mod Bits
pub mod Halves
pub mod Copies
pub mod Skips
pub mod Letters
mod Samples

-- ===== src/Base/Bits.antt =====
-- Laws of `&`, `|` and `^` at every width, from the binary digits that the native operations
-- stand for, and the binary digits of a number.
pub mod Digits
pub mod Word
pub mod Fields
pub mod Flags

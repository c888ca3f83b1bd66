-- ===== src/Rlp.antt =====
-- common/rlp: the encoding of strings and lists. The children model the headers and strings that
-- encode.go writes and the values that raw.go splits off, and prove that the one reads the other.
pub mod Encode
pub mod Raw
pub mod Sizes
pub mod Headers
pub mod Splits
pub mod Counts
pub mod Tests

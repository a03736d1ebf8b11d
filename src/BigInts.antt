-- ===== src/BigInts.antt =====
-- src/bigInts.c: the integer encodings that the block files and the block index use.
pub mod Varint
pub mod CompactSize
pub mod Varint128
pub mod Words
mod Tests

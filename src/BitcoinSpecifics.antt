-- ===== src/BitcoinSpecifics.antt =====
-- src/bitcoin-specifics.c: hexadecimal text, byte order, hashes and the block header.
pub mod Reverse
pub mod Hex
pub mod Hash
pub mod Header
pub mod Formats
pub mod Print
pub mod Tests

-- ===== src/Files.antt =====
-- src/files.c, and `FreeFileList` of src/bitcoin-structs.c: names of files and the list of the block
-- files. A text is its characters, without the terminator.
pub mod Wildcard
pub mod Listing
mod Defaults
mod Tests

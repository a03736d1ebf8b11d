-- ===== src/Blkdat.antt =====
-- src/blkdat.c: transactions out of a block's bytes, the cache of open files, and the block files.
pub mod Reader
pub mod Txn
pub mod Block
pub mod Cache
pub mod Disk
pub mod Tests

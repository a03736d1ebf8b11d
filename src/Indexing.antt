-- ===== src/Indexing.antt =====
-- src/indexing.c: records of the block index and of the coin database, and their tables.
pub mod Records
pub mod Build
pub mod Sort
pub mod Tests

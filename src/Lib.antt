-- ===== src/Lib.antt =====
-- Verification of mlbtcc, a C library that reads the block files and the indexes of Bitcoin Core.
--
-- The program opens a data directory (src/parser.c), lists its block files (src/files.c), fills a table
-- of block records from a LevelDB index (src/indexing.c, src/leveldb.c), and answers requests for blocks
-- by height or by day (src/API.c): it opens the block file through a small cache, undoes the XOR with
-- the key of the directory, decodes the header and reads the transactions (src/blkdat.c), with the
-- integer encodings of src/bigInts.c and the hashes and byte order of src/bitcoin-specifics.c.
--
-- The parts:
--   Base              lists over native numbers, Boolean tests, bit operations as arithmetic, bytes in
--                     memory
--   Structs           the structs of src/include/bitcoin-structs.h
--   BigInts           src/bigInts.c: Varint, CompactSize, Varint128, Words
--   BitcoinSpecifics  src/bitcoin-specifics.c: Reverse (ReverseString), Hex (HexToBytes, BytesToHex),
--                     Hash (SHA256, DoubleSHA256), Header (DecodeBlockHeader), Formats (printf,
--                     ConvertTimestampToString), Print (the Print functions) and in it Json (the
--                     values that the printed texts stand for)
--   Blkdat            src/blkdat.c: Reader and Txn (ReadTxn), Block (ReadBlockFromBlkDatFile on a file's
--                     content), Cache (OpenFile, CloseLRUFile), Disk (ReadBlockFromBlkDatFile through
--                     the cache, on the files of a disk)
--   Leveldb           src/leveldb.c: the counts of entries
--   Indexing          src/indexing.c: Records (one entry), Build (the two tables), Sort (SortFiles)
--   Files             src/files.c: Wildcard (WildcardMatch, SanitizeDirString), Listing (ListFiles, and
--                     FreeFileList of src/bitcoin-structs.c), Defaults (GetFileSize, IsDirectory,
--                     GetBitcoinDatadir)
--   Datadir           src/parser.c: ExpandUserDir, SearchDefaultDatadirs, LoadXorKey, and Parse
--                     (ParseCoreDatadir)
--   Release           src/bitcoin-structs.c: FreeBlock, FreeBlocks; and the Init functions of
--                     src/bitcoin-specifics.c
--   Startup           src/mlbtcc.c (InitMLBTCC), IndexCoreDatadir and IsBitcoindRunning of
--                     src/indexing.c, CopyDirectory and DeleteDirectory of src/files.c; Loaded goes from
--                     there to a block that GetBlock returns
--   Text              what a pattern of file names means (Glob)
--   Cbuilder          CBuilder.c, the build tool: Strings (String and the functions on it), Patterns
--                     (MatchPattern), Rules (the table, ParseGlobalFlags, ManageRules), Host (what is
--                     asked of the operating system), Collect (RecursiveCollectFiles), Compile
--                     (CompileFiles, LinkFiles), FileCopy (CB_CopyFile and its neighbours), UserSpace
--                     (the rules of this repository, main)
--   Api               src/API.c: the requests, Stats (GetBlockStats), and Through (GetBlock and
--                     GetBlocks through the cache, from the list of a directory on)
--
-- How C is modelled. A function is named as in the source, in snake case. Machine integers are natural
-- numbers with their wrap-around written out. A pointer into memory is the list of the bytes that may
-- be read from there on, and Option's none is a run that C leaves undefined: a read or write outside an
-- object, the use of a null pointer or of memory that was never written. malloc is taken to succeed, as
-- the code takes it. Integers in memory are little-endian, as on the machines the program is for.
-- A shift whose result an int does not hold is undefined too. The entries of the block index are
-- described as Bitcoin Core writes them, by the flags of their status; doc/leveldb.md differs.
--
-- Loops are structural recursion or recursion on Acc. Some run on fuel: ReverseString, whose fuel is
-- the size, with a theorem that it is enough; EncodeVarint128, whose fuel is its buffer of ten bytes, a
-- write past which is undefined; and WildcardMatch, whose fuel is shown to be enough for every pattern
-- and every name without a star. In the build tool the doubling of a buffer has 33 rounds, enough for
-- every text below 2 ^ 31; ManageRules has a round for each argument; RecursiveCollectFiles has depth
-- 1, which is enough since it never calls itself; CB_CopyFile has a round for each byte of its source;
-- CB_RemoveDirectory has a depth that is an argument.
--
-- Parameters: SHA-256 (src/extern/sha256) is a record of its three functions with the size of a digest,
-- strtol a function that reads two hexadecimal digits, qsort one that sorts, localtime any function,
-- the operating system of Startup a record of its answers, LevelDB (src/extern/leveldb-1.22) the list
-- of the entries that its iterator gives, and stat, fopen and time are arguments. The build tool's
-- operating system is a record of functions on a state that the model does not look into; its
-- directories are read once when they are opened.
--
-- Not modelled: the copied libraries themselves; what the operating system does for a call; the
-- opcode table and the records that no code uses; the copied logger of CBuilder.c, and its parts for
-- Windows; the test driver.
pub mod Api
pub mod Base
pub mod BigInts
pub mod BitcoinSpecifics
pub mod Blkdat
pub mod Cbuilder
pub mod Datadir
pub mod Files
pub mod Indexing
pub mod Leveldb
pub mod Release
pub mod Startup
pub mod Structs
pub mod Text

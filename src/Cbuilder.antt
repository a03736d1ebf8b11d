-- ===== src/Cbuilder.antt =====
-- CBuilder.c, the repository's build tool: commands as growing strings, the table of rules and the
-- command line that runs them, patterns of file names, and the rules of this repository.
pub mod Strings
pub mod Patterns
pub mod Rules
pub mod Host
pub mod Collect
pub mod Compile
pub mod UserSpace
pub mod FileCopy
mod Tests

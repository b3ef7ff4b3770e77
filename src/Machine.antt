-- ===== src/Machine.antt =====
-- The machine that bootguard runs on: files, the commands that it starts, and faults that may strike
-- any file operation. The file operations are those of std::fs that the source calls; the helpers
-- are those of bootguard/src/sys.rs.
pub mod Monad
pub mod Fs
pub mod Helpers
pub mod FileLaws
pub mod Keeps

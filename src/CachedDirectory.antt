-- ===== src/CachedDirectory.antt =====
-- com/swoval/files/CachedDirectoryImpl.scala, as it stands in files/js/npm/files.js
-- (`CachedDirectoryImpl`): a directory of the file system kept in memory. An operation gives the
-- directory as it leaves it. The lock of `subdirectories` is held by one caller throughout.
pub mod Tree
pub mod Finding
pub mod Scan
pub mod Removal
pub mod Update
pub mod Found
pub mod Removed
pub mod Stale
pub mod Listed
pub mod Filled
pub mod Layered

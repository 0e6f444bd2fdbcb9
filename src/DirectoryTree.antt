-- ===== src/DirectoryTree.antt =====
-- com/swoval/files/FileCacheDirectoryTree.scala, as it stands in files/js/npm/files.js
-- (`FileCacheDirectoryTree`, its anonymous classes, `FileCachePendingFiles`): the cached directories
-- of a repository of files, kept up to date by events. Its lock is held by one caller that is not
-- interrupted, so that an operation of the registry gives what its loop gives (Registry.Accept.accept_runs
-- and its like).
pub mod Sorting
pub mod State
pub mod Lookup
pub mod Register
pub mod Handle
pub mod Ordered
pub mod Specific
pub mod Again
pub mod Deleted

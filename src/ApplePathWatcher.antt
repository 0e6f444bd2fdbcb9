-- ===== src/ApplePathWatcher.antt =====
-- com/swoval/files/ApplePathWatcher.scala with its com.swoval.files.apple, as they stand in
-- files/js/npm/files.js (`ApplePathWatcher`, `FileEvent`, `Flags`, `FileEventMonitor`): the watcher
-- over the streams of file events of Mac OS. The native module is a parameter, and a stream's handle
-- is its number. A lock is held by one caller.
pub mod FileEvents
pub mod Streams
pub mod Kinds
pub mod Apart
pub mod Dropped
pub mod Monitor
pub mod Silenced
pub mod Texts

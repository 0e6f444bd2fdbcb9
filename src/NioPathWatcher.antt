-- ===== src/NioPathWatcher.antt =====
-- com/swoval/files/NioPathWatcher.scala and NioPathWatcherService.scala, as they stand in
-- files/js/npm/files.js (`NioPathWatcher`, `NioPathWatcherService` and their anonymous classes): the
-- watcher over `fs.watch`, which watches every directory that a registration holds. Node's file
-- system is a parameter. A lock is held by one caller that is not interrupted.
pub mod Service
pub mod Callbacks
pub mod State
pub mod Updating
pub mod Calls
pub mod Closed
pub mod Once

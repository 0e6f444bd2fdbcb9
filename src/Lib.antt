-- ===== src/Lib.antt =====
-- A model of the JavaScript library of file-tree-views, files/js/npm/files.js, with the theorems that
-- make it correct. The file is the linked bundle of the Scala sources under
-- files/js/src/main/scala/com/swoval and nio-js/src/main/scala, whose names are used here.
--
-- The parts, and the files that model them:
--   Path: nio-js/src/main/scala/java/nio/file/Path.scala (`JSPath`), on a platform that is not Windows.
--   A path is its text. Node's `path` module is the parameter `NodePath`.
--   Locks: Lockable.scala, the map with a reentrant lock that several parts keep their state in. A
--   method is a state function that may throw.
--   Registry: DirectoryRegistry.scala, which directories are watched and how deep. It keeps its state
--   in a `LockableMap`.
--   Either: Either.scala, Filters.scala and the exceptions of nio-js.
--   TypedPath: TypedPaths.scala, a path with what is known of it, as bits or as a record of answers.
--   Entry: Entries.scala, a typed path with the value that the user's converter made of it.
--   Changes: MapOps.scala and the `Updates` of FileTreeViews.scala, the difference of two maps of
--   entries and how observers are told of it.
--   Observers: Observers.scala and CacheObservers.scala, callbacks under handles.
--   FileTreeView: SimpleFileTreeView.scala, listing the file system, with the set of visited paths and
--   the list of results as state, and exceptions as outcomes. The file system is the record `Lister`.
--   CachedDirectory: CachedDirectoryImpl.scala, a tree of directories in memory: filling it from the
--   file system (Scan), looking into it (Finding), and changing it (Removal, Update), where it uses
--   Entry, Changes and TypedPath. What it calls outside is the record `Setting`.
--   DirectoryLister: the walk of NioDirectoryLister.scala and of Files.scala over the children of a
--   directory, which fills the results that FileTreeView takes from its lister.
--   SymlinkWatcher: SymlinkWatcher.scala, the links that lead to each watched target (the watcher of the
--   targets is the record `Calls`), and what an event on a target tells of its links (Events).
--   Event, Platform: PathWatchers.scala, PlatformWatcher.scala and Platform.scala, the events of the
--   watchers, and which watcher is made on which platform.
--   PollingWatcher: PollingPathWatcher.scala, which lists the registered directories with CachedDirectory
--   at every tick and tells the difference that Changes finds, and PeriodicTask.scala, which makes the
--   ticks.
--   DirectoryTree: FileCacheDirectoryTree.scala with FileCachePendingFiles.scala, the cached directories
--   of a repository, with the registry, the pending paths and the links as fields of one state: where a
--   path is looked for (Lookup), registration (Register), and events (Handle).
--   FileTreeRepository: FileTreeRepositoryImpl.scala, FileCachePathWatcher.scala and
--   FileTreeRepositories.scala, the calls of a client, over DirectoryTree and SymlinkWatcher.
--   SymlinkFollowing: SymlinkFollowingPathWatcher.scala, a watcher that follows links, over
--   SymlinkWatcher and another watcher, which is the record `Outside`.
--   NioPathWatcher: NioPathWatcherService.scala (Service), the monitors of Node's `fs.watch`, and
--   NioPathWatcher.scala, the roots that it caches with CachedDirectory (State, Updating), its calls
--   (Calls) and what it tells (Callbacks). What the service answers is the converter of the roots.
--   ApplePathWatcher: ApplePathWatcher.scala and the folder apple beside it, the streams of file events
--   (Streams), the kind and the text of an event (FileEvents, Texts), and FileEventMonitor.scala with its
--   calls of the native module (Monitor), which is a parameter.
--   NodeFiles: Errors.scala, Files.scala and File.scala of nio-js, what the exceptions of Node's `fs` become
--   and what is asked of a path. The other parts take these answers as parameters.
--   Its child Attributes has NioWrappers.scala and the times of last changes, Messages the texts of the
--   exceptions (FileSystemException.scala).
--   NodeApi: node/PublicApi.scala, what a caller in JavaScript sees of FileTreeRepository and Platform.
--   Long, TimeUnit: the 64-bit integers of the bundle, as two words, the conversion of units of time and
--   the durations (Durations), by which intervals, latencies and times of last changes go. A double is
--   a whole number. The conversions take the division of longs as a parameter; TimeUnit.Whole
--   gives them the one of Long.Division.
--   Runtime: the hash codes of texts and case classes, and the equality of boxed values (Boxes).
--   Throwables: the classes of what is thrown, and the tests of the `catch` clauses.
--   Install: files/js/npm/install.js, the script that builds the native module on macOS.
--   Loggers: Loggers.scala, the levels and the debug messages.
--   Base: numbers, lists, decidable equality, 32-bit integers, and maps as association lists, whose
--   order stands for the order in which a map is walked.
--   Tests: examples of the theorems on concrete inputs.
--
-- Recursion into the file system has fuel: `fillResults` and `init`. Each level takes one unit, and a
-- depth below `Integer.MAX_VALUE` goes down by one at each level, so that fuel above the depth is
-- enough. At that greatest depth the code itself has no bound. The loops that go up from a path to its
-- parents (`find` of SymlinkWatcher, `findOrAddRoot` of NioPathWatcher) have fuel too: a path has fewer
-- parents than characters.
--
-- Not modelled: the wrappers of the Node bindings that pass calls on, native code, the Windows branches
-- of paths, Node's timers and the executor, threads other than the one that holds the lock, and the
-- library code that the linker adds to the bundle but for Long, TimeUnit, Runtime and Throwables; its
-- maps and lists are taken as the sources use them.
pub mod Base
pub mod Path
pub mod Locks
pub mod Registry
pub mod Either
pub mod TypedPath
pub mod Entry
pub mod Changes
pub mod Observers
pub mod FileTreeView
pub mod CachedDirectory
pub mod Tests
pub mod Install
pub mod Loggers
pub mod SymlinkWatcher
pub mod DirectoryLister
pub mod Event
pub mod PollingWatcher
pub mod DirectoryTree
pub mod NioPathWatcher
pub mod FileTreeRepository
pub mod SymlinkFollowing
pub mod ApplePathWatcher
pub mod Platform
pub mod NodeApi
pub mod NodeFiles
pub mod Long
pub mod TimeUnit
pub mod Throwables
pub mod Runtime

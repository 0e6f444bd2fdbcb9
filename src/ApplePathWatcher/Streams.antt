-- ===== src/ApplePathWatcher/Streams.antt =====
-- The streams of an `ApplePathWatcher`: `register`, `unregister`, `close` and the two consumers.
use file_tree_views.Base.{
  Bool, true, false, not, ◌&&◌, Option, none, some, List, [], ◌∷◌, ◌++◌, Str, str_eq, ◌==◌,
  if◌then◌else◌,
}
use file_tree_views.Base.Int.{ℤ}
use file_tree_views.Base.Dict.{Dict, lookup, insert, erase}
use file_tree_views.Path.{NodePath, JsPath, starts_with, to_absolute, paths_get}
use file_tree_views.TypedPath.{TypedPath}
use file_tree_views.Event.{Event}
use file_tree_views.Registry.{RegisteredDirectory}
use file_tree_views.DirectoryTree.State.{add_watched, is_accepted}
use file_tree_views.ApplePathWatcher.FileEvents.{FileEvent, kind_of}

-- `closed`, the registry, the handles of the streams, whether the `FileEventMonitor` is closed, and the
-- handles that `stopStream` was called with.
pub record Watcher : Type 0 where
  pub is_closed : Bool
  pub watched : Dict JsPath RegisteredDirectory
  pub streams : Dict JsPath ℤ
  pub monitor_closed : Bool
  pub stopped : List ℤ

-- `Paths.get`, `TypedPaths.get` and the native `createStream`, where `none` is `Handles.INVALID`. A
-- watcher that is managed was made with the read-only registry of a tree, which it does not change.
pub record Native : Type 0 where
  pub node : NodePath
  pub typed_path_at : JsPath → TypedPath
  pub create_stream : JsPath → Option ℤ
  pub is_managed : Bool

-- What `register` gives: a right value, or the exception of a monitor that is closed.
pub data Answer : Type 0 where
  answered : Bool → Answer
  illegal_state : Answer

-- `find(path)`: the first stream whose path is a prefix.
unfoldable pub find : JsPath → Dict JsPath ℤ → Option (JsPath × ℤ)
find p [] = none
find p ((k, h) ∷ ss) = let rest = find p ss in if starts_with p k then some (k, h) else rest

-- The paths of the streams below a path.
unfoldable pub redundant : JsPath → Dict JsPath ℤ → List JsPath
redundant p [] = []
redundant p ((k, h) ∷ ss) =
    let rest = redundant p ss in if starts_with k p && not (k == p) then k ∷ rest else rest

module _ (native : Native) where
  open native use {node, typed_path_at, create_stream, is_managed}

  -- `directoryRegistry.addDirectory(path, maxDepth)` and `directoryRegistry.removeDirectory(path)`
  abbrev pub enrolled :
      JsPath → ℤ → Dict JsPath RegisteredDirectory → Dict JsPath RegisteredDirectory
  enrolled p n ws = if is_managed then ws else (add_watched p n ws).1

  abbrev pub taken_out : JsPath → Dict JsPath RegisteredDirectory → Dict JsPath RegisteredDirectory
  taken_out p ws = if is_managed then ws else erase p ws

  -- `stream.close()`, where what a closed monitor throws is printed.
  abbrev pub stop : Option ℤ → Watcher → Watcher
  stop none s = s
  stop (some h) s = if s.monitor_closed then s else record s { stopped = s.stopped ++ h ∷ [] }

  -- `unregister(path)`
  unfoldable pub unregister : JsPath → Watcher → Watcher
  unregister path s =
      let p = to_absolute node path in
      if s.is_closed
      then s
      else stop (lookup p s.streams)
          (record s { watched = taken_out p s.watched; streams = erase p s.streams })

  unfoldable pub unregister_all : List JsPath → Watcher → Watcher
  unfolding unregister
  unregister_all [] s = s
  unregister_all (p ∷ ps) s = unregister_all ps (unregister p s)

  -- `removeRedundantStreams(path)`
  unfoldable pub remove_redundant_streams : JsPath → Watcher → Watcher
  unfolding redundant unregister_all
  remove_redundant_streams p s = unregister_all (redundant p s.streams) s

  abbrev pub put_stream : JsPath → ℤ → Watcher → Watcher
  put_stream p h s = record s { streams = insert p h s.streams }

  abbrev pub created : JsPath → Watcher → Option ℤ → Answer × Watcher
  created p s none = (answered false, s)
  created p s (some h) = (answered true, put_stream p h (remove_redundant_streams p s))

  abbrev pub streamed : JsPath → Watcher → Option (JsPath × ℤ) → Answer × Watcher
  streamed p s (some e) = (answered true, s)
  streamed p s none = if s.monitor_closed then (illegal_state, s) else created p s (create_stream p)

  -- `register(path, maxDepth)`
  unfoldable pub register : JsPath → ℤ → Watcher → Answer × Watcher
  unfolding find remove_redundant_streams
  register path n s =
      let p = to_absolute node path in
      streamed p (record s { watched = enrolled p n s.watched }) (find p s.streams)

  -- The consumer of the events: what the observers are told.
  unfoldable pub accept : FileEvent → Watcher → Option Event
  unfolding kind_of
  accept e s =
      let t = typed_path_at (paths_get node e.file_name []) in
      if not s.is_closed && is_accepted node s.watched t.path
      then some (record { typed_path = t; kind = kind_of e t.exists })
      else none

  -- The consumer of the streams that the native code removed.
  unfoldable pub stream_removed : Str → Watcher → Watcher
  stream_removed stream s =
      if s.is_closed then s else record s { streams = erase (paths_get node stream []) s.streams }

-- `close()`
unfoldable pub close : Watcher → Watcher
close s =
    if s.is_closed then s else record s { is_closed = true; streams = []; monitor_closed = true }

-- ===== src/DirectoryTree/State.antt =====
-- The fields of a `FileCacheDirectoryTree`, and its callbacks.
use file_tree_views.Base.{
  Bool, true, false, ◌&&◌, ◌||◌, List, [], ◌∷◌, ◌++◌, str_eq, ◌==◌, if◌then◌else◌,
}
use file_tree_views.Base.Int.{ℤ, pos, min_value, ◌-ℤ◌, to_int32}
use file_tree_views.Base.Dict.{Dict, lookup, insert, values}
use file_tree_views.Path.{NodePath, JsPath, name_count, relativize}
use file_tree_views.TypedPath.{TypedPath}
use file_tree_views.Entry.{Entry, typed, path_of}
use file_tree_views.Changes.{Change, create, update, delete}
use file_tree_views.Registry.{
  RegisteredDirectory, registered_directory, is_deeper, accept_loop, max_depth_loop,
}
use file_tree_views.SymlinkWatcher.{Links}
use file_tree_views.CachedDirectory.Tree.{Directory}
use file_tree_views.DirectoryTree.Sorting.{less, sort}

pub record Cache (T : Type 0) : Type 0 where
  pub is_closed : Bool
  pub watched : Dict JsPath RegisteredDirectory
  pub directories : Dict JsPath (Directory T)
  pub pending : List JsPath
  -- The links of the `SymlinkWatcher`, which is there only where links are followed.
  pub links : Links
  -- What `register` asked of its `watcher`.
  pub asked : List (JsPath × ℤ)

-- `directoryRegistry.addDirectory`
unfoldable pub add_watched :
    JsPath → ℤ → Dict JsPath RegisteredDirectory → Bool × Dict JsPath RegisteredDirectory
add_watched p n ws =
    if is_deeper n (lookup p ws)
    then (true, insert p (registered_directory p n) ws)
    else (false, ws)

-- `directoryRegistry.accept`
abbrev pub is_accepted : NodePath → Dict JsPath RegisteredDirectory → JsPath → Bool
is_accepted node ws p = accept_loop node p false ws

-- `directoryRegistry.maxDepthFor`
abbrev pub depth_for : NodePath → Dict JsPath RegisteredDirectory → JsPath → ℤ
depth_for node ws p = max_depth_loop node p (values ws) min_value

abbrev pub is_pending : JsPath → List JsPath → Bool
is_pending p [] = false
is_pending p (q ∷ qs) = p == q || is_pending p qs

-- `pendingFiles.add(path)`
unfoldable pub add_pending : JsPath → List JsPath → List JsPath
add_pending p ps = if is_pending p ps then ps else p ∷ ps

-- `dir.getPath.relativize(path).getNameCount - 1`
unfoldable pub depth_in : NodePath → JsPath → JsPath → ℤ
depth_in node d p = to_int32 (pos (name_count node (relativize node d p)) -ℤ pos 1)

-- A `Callback`: its path and what it tells the observers. `onError` is never among them, since an
-- `Updates` reports no error.
pub record Callback (T : Type 0) : Type 0 where
  pub path : JsPath
  pub told : Change T

-- The callbacks and links that an event collects.
pub record Collected (T : Type 0) : Type 0 where
  pub callbacks : List (Callback T)
  pub symlinks : List TypedPath

module _ {T : Type 0} where
  -- The entry that a change is about: the new one that is created, or the old one.
  abbrev pub subject : Change T → Entry T
  subject (create e) = e
  subject (update old new) = old
  subject (delete e) = e

  -- `addCallback`
  unfoldable pub add_callback : Bool → Change T → Collected T → Collected T
  add_callback follow c w = record {
    callbacks = w.callbacks ++ record { path = path_of (subject c); told = c } ∷ [];
    symlinks =
        if (typed (subject c)).is_symbolic_link && follow
        then w.symlinks ++ typed (subject c) ∷ []
        else w.symlinks;
  }

  unfoldable pub add_callbacks : Bool → List (Change T) → Collected T → Collected T
  unfolding add_callback
  add_callbacks follow [] w = w
  add_callbacks follow (c ∷ cs) w = add_callbacks follow cs (add_callback follow c w)

  abbrev pub comes_before : Callback T → Callback T → Bool
  comes_before a b = less a.path b.path

  -- `runCallbacks`, in the order in which they run.
  unfoldable pub run_callbacks : Bool → List (Callback T) → List (Callback T)
  run_callbacks closed cs = if closed then [] else sort comes_before cs

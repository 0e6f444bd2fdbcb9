-- ===== src/NioPathWatcher/State.antt =====
-- The fields of a `NioPathWatcher`, and `find`, `findOrAddRoot` and `getOrAdd`.
use file_tree_views.Base.{
  ℕ, zero, suc, Bool, true, false, not, ◌&&◌, Option, none, some, List, [], ◌∷◌, str_eq, ◌==◌,
  if◌then◌else◌,
}
use file_tree_views.Base.Int.{max_value}
use file_tree_views.Base.Dict.{Dict, insert, erase}
use file_tree_views.Either.{Either, IoException}
use file_tree_views.Path.{NodePath, JsPath, starts_with, parent}
use file_tree_views.TypedPath.{TypedPath}
use file_tree_views.Event.{Event}
use file_tree_views.Registry.{RegisteredDirectory, accept_loop}
use file_tree_views.CachedDirectory.Tree.{Setting, Directory, new_directory}
use file_tree_views.CachedDirectory.Scan.{Scanned, filled, failed, exhausted, init}
use file_tree_views.NioPathWatcher.Service.{Watched}

abbrev pub Roots : Type 0
Roots = Dict JsPath (Directory Watched)

-- The watcher; `events` is the list that the current call collects, `shut` are the `WatchedDirectory`s
-- that were told to close, in their order.
pub record Watcher : Type 0 where
  pub is_closed : Bool
  pub watched : Dict JsPath RegisteredDirectory
  pub roots : Roots
  pub events : List Event
  pub shut : List Watched

-- What the watcher calls outside. The converter of `setting` is the watcher's: what the service
-- answers for a path.
pub record World : Type 0 where
  pub setting : Setting Watched
  -- `FileTreeViews.list(path, 0, AllPass)`
  pub list_at : JsPath → Either IoException (List TypedPath)
  pub to_real_path : JsPath → Either IoException JsPath
  -- The first root directory of the default file system.
  pub root_path : JsPath

-- `directoryRegistry.acceptPrefix`
abbrev pub accepts_prefix : NodePath → Dict JsPath RegisteredDirectory → JsPath → Bool
accepts_prefix node ws p = accept_loop node p true ws

abbrev pub Root : Type 0
Root = JsPath × Directory Watched

-- `find(path, toRemove)`: the first root above the path, and the roots below it that come before.
unfoldable pub find : JsPath → Roots → Option Root × List JsPath
find p [] = (none, [])
find p ((k, d) ∷ ds) =
    let rest = find p ds in
    if starts_with p k
    then (some (k, d), [])
    else if starts_with k p && not (p == k)
    then (rest.0, k ∷ rest.1)
    else rest

unfoldable pub erase_roots : List JsPath → Roots → Roots
erase_roots [] rs = rs
erase_roots (p ∷ ps) rs = erase_roots ps (erase p rs)

module _ (w : World) (fuel : ℕ) where
  open w use {setting, root_path}

  -- The filter of a root: it takes the directories that lead to a registration.
  abbrev pub root_filter : Dict JsPath RegisteredDirectory → TypedPath → Bool
  root_filter ws t =
      (t.is_directory && not t.is_symbolic_link) && accepts_prefix setting.node ws t.path

  -- The setting of a root.
  abbrev pub root_setting : Dict JsPath RegisteredDirectory → Setting Watched
  root_setting ws = record setting { path_filter = root_filter ws; follow_links = false }

  -- A new root, where `again` is what its parent gives.
  abbrev started :
      JsPath → Scanned Watched → Option (Option Root × Roots) → Roots → Option (Option Root × Roots)
  started p (filled d) again rs = some (some (p, d), insert p d rs)
  started p (failed x d) again rs = again
  started p exhausted again rs = none

  -- The loop of `findOrAddRoot`; the outer `none` when there is no fuel left.
  unfoldable pub add_root :
      ℕ → Dict JsPath RegisteredDirectory → Option JsPath → Roots → Option (Option Root × Roots)
  add_root zero ws p rs = none
  add_root (suc k) ws none rs = some (none, rs)
  add_root (suc k) ws (some p) rs =
      started p
        (init (root_setting ws) fuel
          (new_directory (root_setting ws) (setting.typed_path_at p) max_value))
        (add_root k ws (parent setting.node p) rs) rs

  -- `parent == null ? getRoot : parent`
  abbrev parent_or_root : JsPath → Option JsPath
  parent_or_root p = elim (parent setting.node p) [ none ↦ some root_path | some q ↦ some q ]

  abbrev cleaned : List JsPath → Option (Option Root × Roots) → Option (Option Root × Roots)
  cleaned ps none = none
  cleaned ps (some (o, rs)) = some (o, erase_roots ps rs)

  abbrev found_or_added :
      JsPath → Watcher → Option Root × List JsPath → Option (Option Root × Roots)
  found_or_added p s (some r, ps) = cleaned ps (some (some r, s.roots))
  found_or_added p s (none, ps) = cleaned ps (add_root fuel s.watched (parent_or_root p) s.roots)

  -- `findOrAddRoot(path)`
  unfoldable pub find_or_add_root : JsPath → Watcher → Option (Option Root × Roots)
  unfolding find add_root erase_roots
  find_or_add_root p s = found_or_added p s (find p s.roots)

  abbrev with_roots : Watcher → Option (Option Root × Roots) → Option (Option Root × Watcher)
  with_roots s none = none
  with_roots s (some (o, rs)) = some (o, record s { roots = rs })

  -- `getOrAdd(path)`
  unfoldable pub get_or_add : JsPath → Watcher → Option (Option Root × Watcher)
  unfolding find_or_add_root
  get_or_add p s = if s.is_closed then some (none, s) else with_roots s (find_or_add_root p s)

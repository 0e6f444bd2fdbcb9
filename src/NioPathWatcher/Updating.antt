-- ===== src/NioPathWatcher/Updating.antt =====
-- `add`, `remove`, `update` and the observer of the updates of a root.
use Prim.Native.Nat.{bit_or}
use file_tree_views.Base.{
  ℕ, Bool, true, ◌||◌, Option, none, some, List, [], ◌∷◌, ◌++◌, str_eq, ◌==◌, if◌then◌else◌, keep,
}
use file_tree_views.Base.Int.{pos, leb_ℤ, max_value}
use file_tree_views.Base.Dict.{Dict, lookup, insert, erase}
use file_tree_views.Either.{Either, left, right, IoException, no_such_file, all_pass}
use file_tree_views.Path.{JsPath}
use file_tree_views.TypedPath.{TypedPath, typed_path, get_kind, nonexistent_bit}
use file_tree_views.Entry.{Entry, typed, get_value}
use file_tree_views.Event.{Kind, create_kind, delete_kind, modify_kind}
use file_tree_views.Changes.{Change, create, update, delete, observe}
use file_tree_views.Registry.{RegisteredDirectory}
use file_tree_views.CachedDirectory.Tree.{Directory, entry_of, dir_path}
use file_tree_views.CachedDirectory.Finding.{list_entries}
use file_tree_views.CachedDirectory.Removal
use file_tree_views.CachedDirectory.Update
use file_tree_views.CachedDirectory.Update.{Updated, updated, update_threw, update_exhausted}
use file_tree_views.DirectoryTree.State.{is_accepted, depth_for}
use file_tree_views.NioPathWatcher.Service.{Watched}
use file_tree_views.NioPathWatcher.State.{
  Watcher, World, Root, accepts_prefix, find, root_setting, get_or_add,
}

abbrev pub and_then : {A B : Type 0} → Option A → (A → Option B) → Option B
and_then none f = none
and_then (some a) f = f a

abbrev pub with_event : TypedPath → Kind → Watcher → Watcher
with_event t k s = record s { events = s.events ++ record { typed_path = t; kind = k } ∷ [] }

-- `entry.getValue.get.close()` for a value that is there; the converter throws nothing.
abbrev pub with_shut : Entry Watched → Watcher → Watcher
with_shut e s = elim (get_value e) [ left x ↦ s | right w ↦ record s { shut = s.shut ++ w ∷ [] } ]

unfoldable pub shut_all : List (Entry Watched) → Watcher → Watcher
shut_all [] s = s
shut_all (e ∷ es) s = shut_all es (with_shut e s)

unfoldable pub create_all : List TypedPath → Watcher → Watcher
create_all [] s = s
create_all (t ∷ ts) s = create_all ts (with_event t create_kind s)

module _ (w : World) where
  open w use {setting, list_at}
  open setting use {node, typed_path_at}

  abbrev gone : TypedPath → TypedPath
  gone t = typed_path node t.path (bit_or (get_kind t) nonexistent_bit)

  -- What is done with an entry that a removal gives; `told` is whether there is a list of events.
  abbrev cancelled : Bool → Entry Watched → Watcher → Watcher
  cancelled told e s = elim (get_value e) [
    | left x ↦ s
    | right v ↦ with_shut e (if told then with_event (gone (typed e)) delete_kind s else s)
  ]

  unfoldable pub cancel_all : Bool → List (Entry Watched) → Watcher → Watcher
  cancel_all told [] s = s
  cancel_all told (e ∷ es) s = cancel_all told es (cancelled told e s)

  -- `remove(cachedDirectory, path, events)`, and the directory as it is left.
  unfoldable pub remove_from :
      Bool → JsPath → Directory Watched → Watcher → Directory Watched × Watcher
  unfolding cancel_all
  remove_from told p d s =
      let (es, rest) = Removal.remove node p d in
      (rest, cancel_all told (if p == dir_path d then es ++ entry_of rest ∷ [] else es) s)

  abbrev put_root : JsPath → Directory Watched × Watcher → Watcher
  put_root k (d, s) = record s { roots = insert k d s.roots }

  abbrev dropped_root : Directory Watched × Watcher → Watcher
  dropped_root (d, s) = s

  abbrev removed_below : JsPath → Watcher → Option Root → Watcher
  removed_below p s none = s
  removed_below p s (some (k, d)) = put_root k (remove_from true p d s)

  abbrev removed_root : JsPath → Watcher → Option (Directory Watched) → Watcher
  removed_root p s none = removed_below p s (find p s.roots).0
  removed_root p s (some d) =
      dropped_root (remove_from true p d (record s { roots = erase p s.roots }))

  -- `remove(path, events)`
  unfoldable pub remove : JsPath → Watcher → Watcher
  unfolding find remove_from
  remove p s = removed_root p s (lookup p s.roots)

  -- The filter of the listing of a new directory.
  abbrev accepted_child : Dict JsPath RegisteredDirectory → TypedPath → Bool
  accepted_child ws t = is_accepted node ws t.path

  abbrev listed :
      Dict JsPath RegisteredDirectory → Either IoException (List TypedPath) → List TypedPath
  listed ws (left x) = []
  listed ws (right ts) = keep (accepted_child ws) ts

  -- `updateCacheObserver(events)`
  unfoldable pub heed : Change Watched → Watcher → Watcher
  unfolding create_all
  heed (create e) s =
      create_all (listed s.watched (list_at (typed e).path)) (with_event (typed e) create_kind s)
  heed (update old new) s = s
  heed (delete e) s = with_event (typed e) delete_kind (with_shut e s)

  unfoldable pub heed_all : List (Change Watched) → Watcher → Watcher
  unfolding heed
  heed_all [] s = s
  heed_all (c ∷ cs) s = heed_all cs (heed c s)

  abbrev shut_root : JsPath → Watcher → Option (Directory Watched) → Watcher
  shut_root p s none = s
  shut_root p s (some d) =
      shut_all (list_entries node (dir_path d) max_value all_pass d)
        (record s { roots = erase p s.roots })

  -- The path of an update is not there any more.
  unfoldable pub vanished : JsPath → JsPath → Directory Watched → Watcher → Watcher
  unfolding remove_from shut_all
  vanished p k d s =
      let t = typed_path_at p in
      let rest =
        with_event t (if t.exists then modify_kind else delete_kind)
          (put_root k (remove_from true p d s)) in
      shut_root p rest (lookup p rest.roots)

  abbrev updated_root : JsPath → JsPath → Watcher → Updated Watched → Option Watcher
  updated_root p k s (updated u d) =
      some (heed_all (observe node u) (record s { roots = insert k d s.roots }))
  updated_root p k s (update_threw (no_such_file m) d) = some (vanished p k d s)
  updated_root p k s (update_threw x d) = some (record s { roots = insert k d s.roots })
  updated_root p k s update_exhausted = none

  module _ (fuel : ℕ) where
    -- `update(dir, typedPath, events, rescanDirectories)` of the root with the key `k`
    unfoldable pub update_root : TypedPath → Bool → Root → Watcher → Option Watcher
    unfolding heed_all vanished
    update_root t rescan (k, d) s =
        updated_root t.path k s (Update.update (root_setting w fuel s.watched) fuel t rescan d)

    abbrev updated_if : TypedPath → Option Root × Watcher → Option Watcher
    updated_if t (none, s) = some s
    updated_if t (some r, s) = update_root t true r s

    -- `add(typedPath, events)`
    unfoldable pub add : TypedPath → Watcher → Option Watcher
    unfolding get_or_add update_root
    add t s =
        if leb_ℤ (pos 0) (depth_for node s.watched t.path) || accepts_prefix node s.watched t.path
        then and_then (get_or_add w fuel t.path s) (updated_if t)
        else some s

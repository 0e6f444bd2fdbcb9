-- ===== src/FileTreeRepository.antt =====
-- com/swoval/files/FileTreeRepositoryImpl.scala, FileCachePathWatcher.scala and FileTreeRepositories.scala,
-- as they stand in files/js/npm/files.js (`FileTreeRepositoryImpl`, `FileCachePathWatcher`,
-- `FileTreeRepositories$`): what a client calls, over the directory tree, the links and a watcher.
pub mod Silent
use file_tree_views.Base.{
  ℕ, Bool, true, false, not, ◌&&◌, Option, none, some, List, [], ◌∷◌, ◌++◌, if◌then◌else◌, str_eq,
  ◌==◌,
}
use file_tree_views.Base.Int.{ℤ, pos, ◌-ℤ◌, eq_ℤ, max_value, to_int32}
use file_tree_views.Either.{Either, left, right, IoException, all_pass}
use file_tree_views.Path.{JsPath, to_absolute, name_count, relativize}
use file_tree_views.TypedPath.{TypedPath}
use file_tree_views.Entry.{Entry, typed, path_of}
use file_tree_views.Event.{Event}
use file_tree_views.Changes.{Change, create, update, delete}
use file_tree_views.SymlinkWatcher
use file_tree_views.SymlinkWatcher.{Calls, Links, Ended}
use file_tree_views.CachedDirectory.Tree.{Setting, Directory, entry_of, depth_of, dir_path}
use file_tree_views.CachedDirectory.Finding
use file_tree_views.DirectoryTree.State.{Cache, Callback}
use file_tree_views.DirectoryTree.Lookup
use file_tree_views.DirectoryTree.Register
use file_tree_views.DirectoryTree.Register.{
  Registered, registered, register_threw, register_exhausted,
}
use file_tree_views.DirectoryTree.Handle.{Handled, handled, handled_none, handle_event}

-- The repository: its `closed`, its tree, and what the watcher was told besides `register`, which the
-- tree asks.
pub record Repository (T : Type 0) : Type 0 where
  pub is_closed : Bool
  pub tree : Cache T
  pub unregistered : List JsPath
  pub watcher_closed : Bool

-- What `FileTreeRepositories.get` makes: an empty tree, no link and an open watcher.
unfoldable pub new_repository : {T : Type 0} → Repository T
new_repository = record {
  is_closed = false;
  tree = record {
    is_closed = false;
    watched = [];
    directories = [];
    pending = [];
    links = record { is_closed = false; targets = [] };
    asked = [];
  };
  unregistered = [];
  watcher_closed = false;
}

-- The observer that `addObserver` makes of one for entries: the entry that it is told of.
unfoldable pub next_entry : {T : Type 0} → Change T → Entry T
next_entry (create e) = e
next_entry (update old new) = new
next_entry (delete e) = e

module _ {T : Type 0} (c : Setting T) (fuel : ℕ) (calls : Calls) where
  open c use {node, follow_links}

  abbrev pub set_tree : Repository T → Cache T → Repository T
  set_tree r s = record r { tree = s }

  abbrev set_links : Links → Cache T → Cache T
  set_links l s = record s { links = l }

  -- The depth of a link below a registered path.
  unfoldable pub link_depth : JsPath → ℤ → JsPath → ℤ
  link_depth p n q =
      if eq_ℤ n max_value then n else to_int32 (n -ℤ pos (name_count node (relativize node p q)))

  abbrev after_link : Ended → (Links → Ended) → Ended
  after_link (left x, l) k = (left x, l)
  after_link (right u, l) k = k l

  -- The loop over the entries, which adds those that are links.
  unfoldable pub link_entries : JsPath → ℤ → List (Entry T) → Links → Ended
  unfolding link_depth
  link_entries p n [] l = (right tt, l)
  link_entries p n (e ∷ es) l =
      let rest = link_entries p n es in
      if (typed e).is_symbolic_link
      then after_link (SymlinkWatcher.add_symlink calls (path_of e) (link_depth p n (path_of e)) l)
          rest
      else rest l

  -- The links of a directory that was registered.
  unfoldable pub link_directory : JsPath → ℤ → Directory T → Links → Ended
  unfolding link_entries
  link_directory p n d l =
      let es = Finding.list_entries node (dir_path d) (depth_of d) all_pass d in
      if (typed (entry_of d)).is_symbolic_link
      then after_link (SymlinkWatcher.add_symlink calls p n l) (link_entries p n es)
      else link_entries p n es l

  -- What a call answers, with the state; `none` when there is no fuel left.
  abbrev pub Answered : Type 0
  Answered = Option (Either IoException Bool × Cache T)

  abbrev after_links : Cache T → Ended → Answered
  after_links s (left x, l) = some (left x, set_links l s)
  after_links s (right u, l) = some (right true, set_links l s)

  abbrev watched_links : JsPath → ℤ → Registered T → Answered
  watched_links p n (registered none s) = some (right false, s)
  watched_links p n (registered (some d) s) =
      if follow_links then after_links s (link_directory p n d s.links) else some (right true, s)
  watched_links p n (register_threw x s) = some (left x, s)
  watched_links p n register_exhausted = none

  -- `FileCachePathWatcher.register`, with what it throws as a left value, as
  -- `FileTreeRepositoryImpl.register` gives it.
  unfoldable pub register_path : JsPath → ℤ → Cache T → Answered
  unfolding link_directory
  register_path p n s =
      watched_links (to_absolute node p) n (Register.register c fuel (to_absolute node p) n s)

  abbrev with_tree : Repository T → Answered → Option (Either IoException Bool × Repository T)
  with_tree r none = none
  with_tree r (some (b, s)) = some (b, set_tree r s)

  -- `register(path, maxDepth)`
  unfoldable pub register :
      JsPath → ℤ → Repository T → Option (Either IoException Bool × Repository T)
  unfolding register_path
  register p n r = with_tree r (register_path (to_absolute node p) n r.tree)

  -- `unregister(path)`
  unfoldable pub unregister : JsPath → Repository T → Repository T
  unregister p r =
      let q = to_absolute node p in
      record r {
        tree = Register.unregister c fuel q r.tree;
        unregistered = r.unregistered ++ q ∷ [];
      }

  -- `close()`: the watcher, the links where they are followed, and the tree, which closes them too.
  unfoldable pub close : Repository T → Repository T
  close r = if r.is_closed then r else record r {
    is_closed = true;
    tree =
        Register.close
          (if follow_links then set_links (SymlinkWatcher.close r.tree.links) r.tree else r.tree);
    watcher_closed = true;
  }

  -- `list(path, maxDepth, filter)`
  unfoldable pub list : JsPath → ℤ → (TypedPath → Bool) → Repository T → List TypedPath
  list p n accept r = Lookup.list node p n accept r.tree

  -- `listEntries(path, maxDepth, filter)`
  unfoldable pub list_entries : JsPath → ℤ → (Entry T → Bool) → Repository T → List (Entry T)
  list_entries p n accept r = Lookup.list_entries node p n accept r.tree

  abbrev pub Observed : Type 0
  Observed = Option (List (Callback T) × List IoException × Repository T)

  abbrev observed : Repository T → Handled T → Observed
  observed r (handled cs xs s) = some (cs, xs, set_tree r s)
  observed r handled_none = none

  -- The observer of the watcher that `FileTreeRepositories.get` adds; `rescan` is
  -- `rescanOnDirectoryUpdates`.
  unfoldable pub on_next : Bool → Event → Repository T → Observed
  on_next rescan e r = observed r (handle_event c fuel rescan calls e r.tree)

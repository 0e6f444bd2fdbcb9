-- ===== src/DirectoryTree/Register.antt =====
-- `register`, `unregister`, `cleanupDirectories`, `newCachedDirectory` and `close`.
use file_tree_views.Base.{
  ℕ, zero, suc, Bool, true, false, not, ◌&&◌, ◌||◌, Option, none, some, List, [], ◌∷◌, ◌++◌, str_eq,
  ◌==◌, if◌then◌else◌, keep,
}
use file_tree_views.Base.Int.{ℤ, pos, negsuc, ◌-ℤ◌, ltb_ℤ, leb_ℤ, eq_ℤ, max_value, to_int32}
use file_tree_views.Base.Dict.{Dict, insert, erase}
use file_tree_views.Either.{
  Either, left, right, IoException, no_such_file, not_directory, access_denied, file_system_loop,
  other,
}
use file_tree_views.Path.{JsPath, starts_with, to_absolute, name_count, relativize}
use file_tree_views.TypedPath.{TypedPath}
use file_tree_views.Registry.{RegisteredDirectory}
use file_tree_views.CachedDirectory.Tree.{Setting, Directory, depth_of, dir_path, new_directory}
use file_tree_views.CachedDirectory.Scan.{Scanned, filled, failed, exhausted, init}
use file_tree_views.CachedDirectory.Removal
use file_tree_views.CachedDirectory.Update.{
  Updated, updated, update_threw, update_exhausted, update,
}
use file_tree_views.SymlinkWatcher
use file_tree_views.DirectoryTree.Sorting.{less, sort}
use file_tree_views.DirectoryTree.State.{Cache, add_watched, is_accepted, add_pending, depth_in}
use file_tree_views.DirectoryTree.Lookup.{find}

-- `newCachedDirectory` gives a directory, throws, or has no fuel left.
pub data Made (T : Type 0) : Type 0 where
  made : Directory T → Made T
  refused : IoException → Made T
  made_none : Made T

-- How `register` ends: with the directory or `null`, or with an exception.
pub data Registered (T : Type 0) : Type 0 where
  registered : Option (Directory T) → Cache T → Registered T
  register_threw : IoException → Cache T → Registered T
  register_exhausted : Registered T

module _ {T : Type 0} (c : Setting T) (fuel : ℕ) where
  open c use {node, typed_path_at}

  -- A listing with a filter, of one without.
  abbrev pub only_accepted :
      (TypedPath → Bool) → Either IoException (List TypedPath) → Either IoException (List TypedPath)
  only_accepted accept (left x) = left x
  only_accepted accept (right ts) = right (keep accept ts)

  -- The filter of the tree's directories, `DirectoryRegistries.toTypedPathFilter`, which decides what
  -- is listed too. The listing of `c` is the one that nothing is taken out of.
  abbrev pub filtered : Dict JsPath RegisteredDirectory → Setting T
  filtered ws =
      let accepted = λ (t : TypedPath). is_accepted node ws t.path in
      record c { path_filter = accepted; view = λ p. only_accepted accepted (c.view p) }

  module _ (ws : Dict JsPath RegisteredDirectory) where
    -- What is done with an attempt, where `again` is the next one.
    abbrev judged : Scanned T → Made T → Made T
    judged (filled d) again = made d
    judged (failed (access_denied m) d) again = again
    judged (failed (no_such_file m) d) again = refused (no_such_file m)
    judged (failed (not_directory m) d) again = refused (not_directory m)
    judged (failed (file_system_loop m) d) again = refused (file_system_loop m)
    judged (failed (other m) d) again = refused (other m)
    judged exhausted again = made_none

    unfoldable pub attempts : ℕ → JsPath → ℤ → Made T
    attempts zero p n = refused (no_such_file p)
    attempts (suc k) p n =
        judged (init (filtered ws) fuel (new_directory (filtered ws) (typed_path_at p) n))
          (attempts k p n)

    -- `newCachedDirectory(path, depth)`
    unfoldable pub new_cached_directory : JsPath → ℤ → Made T
    unfolding attempts
    new_cached_directory p n = attempts 3 p n

  -- Whether `register` finds the path to be held already.
  unfoldable pub holds : JsPath → ℤ → Directory T → Bool
  holds q n d =
      starts_with q (dir_path d)
      && (eq_ℤ max_value (depth_of d)
          || ltb_ℤ n (to_int32 (depth_of d -ℤ depth_in node (dir_path d) q)))

  unfoldable pub first_holding :
      JsPath → ℤ → Dict JsPath (Directory T) → Option (JsPath × Directory T)
  unfolding holds
  first_holding q n [] = none
  first_holding q n ((k, d) ∷ ds) =
      let rest = first_holding q n ds in if holds q n d then some (k, d) else rest

  abbrev pub ascends : JsPath × Directory T → JsPath × Directory T → Bool
  ascends a b = less (dir_path a.1) (dir_path b.1)

  -- Whether a directory is held by a registration of this path and depth.
  unfoldable pub is_held : JsPath → ℤ → Directory T → Bool
  is_held q n d =
      (starts_with (dir_path d) q && not (dir_path d == q))
      && (eq_ℤ max_value n
          || leb_ℤ (depth_of d)
              (to_int32 (n -ℤ pos (name_count node (relativize node q (dir_path d))))))

  unfoldable pub held_paths : JsPath → ℤ → Dict JsPath (Directory T) → List JsPath
  unfolding is_held
  held_paths q n [] = []
  held_paths q n ((k, d) ∷ ds) =
      let rest = held_paths q n ds in if is_held q n d then dir_path d ∷ rest else rest

  unfoldable pub erase_all : List JsPath → Dict JsPath (Directory T) → Dict JsPath (Directory T)
  erase_all [] ds = ds
  erase_all (p ∷ ps) ds = erase_all ps (erase p ds)

  -- `cleanupDirectories(path, maxDepth)`
  unfoldable pub cleanup_directories : JsPath → ℤ → Cache T → Cache T
  unfolding held_paths erase_all
  cleanup_directories q n s = record s {
    directories = erase_all (held_paths q n s.directories) s.directories;
  }

  abbrev pub put_directory : JsPath → Directory T → Cache T → Cache T
  put_directory k d s = record s { directories = insert k d s.directories }

  abbrev pub cleaned : JsPath → ℤ → Directory T → Cache T → Registered T
  cleaned q n d s = registered (some d) (cleanup_directories q n s)

  -- The path does not exist: it is pending, and its directory is given out but not kept.
  abbrev pub pended : JsPath → ℤ → Cache T → Made T → Registered T
  pended q n s (made d) = cleaned q n d s
  pended q n s (refused x) = register_threw x s
  pended q n s made_none = register_exhausted

  abbrev pub pend : JsPath → ℤ → Cache T → Registered T
  pend q n s =
      pended q n (record s { pending = add_pending q s.pending })
        (new_cached_directory s.watched q (negsuc 0))

  abbrev pub kept : JsPath → ℤ → Cache T → Made T → Registered T
  kept q n s (made d) = cleaned q n d (put_directory q d s)
  kept q n s (refused (no_such_file m)) = pend q n s
  kept q n s (refused x) = register_threw x s
  kept q n s made_none = register_exhausted

  -- A path that is no directory is kept by itself, at depth -1.
  abbrev pub made_new : JsPath → ℤ → Cache T → Made T → Registered T
  made_new q n s (refused (not_directory m)) =
      kept q n s (new_cached_directory s.watched q (negsuc 0))
  made_new q n s m = kept q n s m

  abbrev pub refreshed : JsPath → ℤ → JsPath → Cache T → Updated T → Registered T
  refreshed q n k s (updated u d) = cleaned q n d (put_directory k d s)
  refreshed q n k s (update_threw x d) = register_threw x (put_directory k d s)
  refreshed q n k s update_exhausted = register_exhausted

  -- The new registration, once the watcher was asked.
  unfoldable pub register_new : JsPath → ℤ → Cache T → Registered T
  unfolding first_holding cleanup_directories new_cached_directory
  register_new q n s = elim (first_holding q n (sort ascends s.directories)) [
    | none ↦ made_new q n s (new_cached_directory s.watched q n)
    | some (k, d) ↦ refreshed q n k s (update (filtered s.watched) fuel (typed_path_at q) true d)
  ]

  abbrev pub watched_new :
      JsPath → ℤ → Cache T → Bool × Dict JsPath RegisteredDirectory → Registered T
  watched_new q n s (true, ws) =
      register_new q n (record s { watched = ws; asked = s.asked ++ (q, n) ∷ [] })
  watched_new q n s (false, ws) = registered none s

  -- `register(path, maxDepth, watcher)`
  unfoldable pub register : JsPath → ℤ → Cache T → Registered T
  unfolding register_new add_watched
  register p n s =
      watched_new (to_absolute node p) n s (add_watched (to_absolute node p) n s.watched)

  abbrev dropped : JsPath → Cache T → Option (JsPath × Directory T) → Cache T
  dropped q s none = s
  dropped q s (some (k, d)) =
      if dir_path d == q
      then record s { directories = erase q s.directories }
      else put_directory k (Removal.remove node q d).1 s

  -- `unregister(path)`
  unfoldable pub unregister : JsPath → Cache T → Cache T
  unfolding find
  unregister p s =
      let q = to_absolute node p in
      let rest = record s { watched = erase q s.watched } in
      if is_accepted node rest.watched q
      then rest
      else dropped q rest (find node q rest.directories)

-- `close()`
unfoldable pub close : {T : Type 0} → Cache T → Cache T
close s = if s.is_closed then s else record s {
  is_closed = true;
  watched = [];
  directories = [];
  pending = [];
  links = SymlinkWatcher.close s.links;
}

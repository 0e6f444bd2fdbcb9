-- ===== src/CachedDirectory/Update.antt =====
-- `update`, `updateImpl` and `addDirectory`. `currentDir` is a directory below this one, told by the
-- names that lead to it, so that what is changed in it is seen from this one.
use file_tree_views.Base.{
  ℕ, Bool, not, ◌&&◌, ◌||◌, Option, none, some, List, [], ◌∷◌, ◌++◌, str_eq, ◌==◌, if◌then◌else◌,
}
use file_tree_views.Base.Int.{pos, negsuc, leb_ℤ, ltb_ℤ, max_value}
use file_tree_views.Base.Dict.{lookup, insert, erase}
use file_tree_views.Either.{IoException, no_such_file, all_pass}
use file_tree_views.Path.{JsPath, parts, relativize, resolve, file_name}
use file_tree_views.TypedPath.{TypedPath, delegate, expanded}
use file_tree_views.Entry.{Entry, typed, get_entry, resolve_entry}
use file_tree_views.Changes.{
  Updates, no_updates, on_create, on_update, on_delete, tell_all, diff_maps, diff_entries, by_path,
}
use file_tree_views.CachedDirectory.Tree.{
  Setting, Directory, entry_of, depth_of, files_of, subs_of, dir_path, set_entry, set_files,
  set_subs, get_sub, put_sub, new_directory, subdirectory_depth, is_loop,
}
use file_tree_views.CachedDirectory.Finding.{list_entries}
use file_tree_views.CachedDirectory.Scan.{Scanned, filled, failed, exhausted, init}
use file_tree_views.CachedDirectory.Removal.{Removed, remove}

-- `update` ends with what it tells, throws, or has no fuel left.
pub data Updated (T : Type 0) : Type 0 where
  updated : Updates T → Directory T → Updated T
  update_threw : IoException → Directory T → Updated T
  update_exhausted : Updated T

module _ {T : Type 0} where
  -- The directory that the names lead to.
  unfoldable pub dir_at : List JsPath → Directory T → Option (Directory T)
  dir_at [] d = some d
  dir_at (p ∷ ps) d = elim (get_sub p (subs_of d)) [ none ↦ none | some s ↦ dir_at ps s ]

  -- The directory with another one where the names lead.
  unfoldable pub put_at : List JsPath → Directory T → Directory T → Directory T
  put_at [] new d = new
  put_at (p ∷ ps) new d = elim (get_sub p (subs_of d)) [
    | none ↦ d
    | some s ↦ set_subs (put_sub p (put_at ps new s) (subs_of d)) d
  ]

  abbrev delete_all : List (Entry T) → Updates T → Updates T
  delete_all [] u = u
  delete_all (e ∷ es) u = delete_all es (on_delete u e)

module _ {T : Type 0} (c : Setting T) (fuel : ℕ) where
  open c use {node, converter, path_filter, follow_links, real_path, typed_path_at}

  -- `isDirectory` of `updateImpl`, and the test of `addDirectory`
  unfoldable pub is_entered : TypedPath → Bool
  is_entered t = t.is_directory && (follow_links || not t.is_symbolic_link)

  abbrev everything : Directory T → List (Entry T)
  everything d = list_entries node (dir_path d) max_value all_pass d

  -- `listEntries(getMaxDepth, AllPass)`
  abbrev everything_to : Directory T → List (Entry T)
  everything_to d = list_entries node (dir_path d) (depth_of d) all_pass d

  abbrev replaced : Option (Directory T) → List (Entry T)
  replaced none = []
  replaced (some d) = entry_of d ∷ everything d

  -- `exists`: the new directory takes the place of the previous one.
  unfoldable pub put_new :
      List JsPath → Directory T → JsPath → Directory T → Updates T → Directory T → Updated T
  put_new at current p new u root =
      updated
        (tell_all u (
          diff_maps (by_path (replaced (get_sub (file_name node p) (subs_of current))) [])
            (by_path (entry_of new ∷ everything new) [])))
        (put_at at (set_subs (put_sub (file_name node p) new (subs_of current)) current) root)

  -- `!exists`: what was cached at the path is removed.
  abbrev told_gone : Updates T → Removed T → Updated T
  told_gone u (es, d) = updated (delete_all es u) d

  unfoldable pub withdraw : Directory T → Updates T → Directory T → Updated T
  withdraw new u root = told_gone u (remove node (dir_path new) root)

  abbrev added :
      List JsPath → Directory T → JsPath → Updates T → Directory T → Scanned T → Updated T
  added at current p u root (filled new) = put_new at current p new u root
  added at current p u root (failed (no_such_file m) new) = withdraw new u root
  added at current p u root (failed x new) = put_new at current p new u root
  added at current p u root exhausted = update_exhausted

  -- `addDirectory(currentDir, typedPath, updates)`
  unfoldable pub add_directory :
      List JsPath → Directory T → TypedPath → Updates T → Directory T → Updated T
  unfolding put_new withdraw
  add_directory at current t u root =
      let new = new_directory c t (subdirectory_depth (depth_of current)) in
      if is_entered t
      then added at current t.path u root (init c fuel new)
      else withdraw new u
          (put_at at (set_files (insert t.path (entry_of new) (files_of current)) current) root)

  -- `updateDirectory(dir, result, entry)` for the subdirectory `p` of `currentDir`
  unfoldable pub update_directory :
      List JsPath
      → Directory T
      → JsPath
      → Directory T
      → Entry T
      → Updates T
      → Directory T
      → Updated T
  update_directory at current p s e u root =
      updated (on_update u (entry_of s) e)
        (put_at at (set_subs (put_sub p (set_entry e s) (subs_of current)) current) root)

  abbrev pub resolved_update : JsPath → Option (Entry T) → Entry T → Updates T → Updates T
  resolved_update dir none new u = on_create u (resolve_entry node dir new)
  resolved_update dir (some old) new u =
      on_update u (resolve_entry node dir old) (resolve_entry node dir new)

  -- `oldEntry`: the file's, else the subdirectory's.
  abbrev old_entry : Option (Entry T) → Option (Directory T) → Option (Entry T)
  old_entry (some e) s = some e
  old_entry none (some s) = some (entry_of s)
  old_entry none none = none

  -- A directory that is not entered, put or updated under its name. `dir` has lost the file.
  abbrev shallow :
      List JsPath
      → Directory T
      → JsPath
      → TypedPath
      → Entry T
      → Bool
      → Option (Directory T)
      → Updates T
      → Directory T
      → Updates T × Directory T
  shallow at dir p t new rescan (some s) u root =
      if rescan
      then (
        u,
        put_at at (set_subs (put_sub p (new_directory c t (negsuc 0)) (subs_of dir)) dir) root,
      )
      else (
        on_update u (entry_of s) new,
        put_at at (set_subs (put_sub p (set_entry new s) (subs_of dir)) dir) root,
      )
  shallow at dir p t new rescan none u root =
      (u, put_at at (set_subs (put_sub p (new_directory c t (negsuc 0)) (subs_of dir)) dir) root)

  abbrev finish : JsPath → Option (Entry T) → Entry T → Updates T × Directory T → Updated T
  finish dir old new (u, root) = updated (resolved_update dir old new u) root

  -- A file, a directory below the depth, or a loop.
  unfoldable pub update_file :
      List JsPath → Directory T → JsPath → TypedPath → Bool → Updates T → Directory T → Updated T
  update_file at current p t rescan u root =
      let resolved = delegate (resolve node (dir_path current) p) t in
      let new = get_entry resolved converter resolved in
      let kept = set_files (erase p (files_of current)) current in
      let file = lookup p (files_of current) in
      if is_entered t
      then finish (dir_path current) (old_entry file (get_sub p (subs_of current))) new
          (shallow at kept p resolved new rescan (get_sub p (subs_of current)) u root)
      else finish (dir_path current) file new
          (u, put_at at (set_files (insert p new (erase p (files_of current))) current) root)

  -- The last name of the loop.
  unfoldable pub update_name :
      List JsPath → Directory T → JsPath → TypedPath → Bool → Updates T → Directory T → Updated T
  unfolding update_file add_directory update_directory
  update_name at current p t rescan u root =
      if not (is_entered t)
        || (leb_ℤ (depth_of current) (pos 0)
            || is_loop (resolve node (dir_path current) p) (expanded real_path t))
      then update_file at current p t rescan u root
      else elim (get_sub p (subs_of current)) [
        | none ↦ add_directory at current t u root
        | some s ↦
            if rescan
            then add_directory at current t u root
            else update_directory at current p s (get_entry t converter t) u root
      ]

  -- The loop over the names below `currentDir`; a missing directory is added, and ends it.
  unfoldable pub update_loop :
      List JsPath → JsPath → List JsPath → TypedPath → Bool → Updates T → Directory T → Updated T
  unfolding update_name
  update_loop at p [] t rescan u root = elim (dir_at at root) [
    | none ↦ updated u root
    | some current ↦
        if leb_ℤ (pos 0) (depth_of current)
        then update_name at current p t rescan u root
        else updated u root
  ]
  update_loop at p (q ∷ ps) t rescan u root =
      let deeper = update_loop (at ++ p ∷ []) q ps t rescan u root in
      elim (dir_at at root) [
        | none ↦ updated u root
        | some current ↦
            if leb_ℤ (pos 0) (depth_of current)
            then elim (get_sub p (subs_of current)) [
              | none ↦
                  if ltb_ℤ (pos 0) (depth_of current)
                  then add_directory at current (typed_path_at (resolve node (dir_path current) p))
                      u root
                  else updated u root
              | some s ↦ deeper
            ]
            else updated u root
      ]

  abbrev rescanned : Directory T → Scanned T → Updated T
  rescanned old (filled new) =
      updated (tell_all no_updates (diff_entries (everything_to old) (everything_to new))) new
  rescanned old (failed x new) = update_threw x new
  rescanned old exhausted = update_exhausted

  -- `updateImpl` of no names: this directory itself.
  unfoldable pub update_self : TypedPath → Bool → Directory T → Updated T
  update_self t rescan d =
      if t.is_directory && rescan
      then rescanned d (init c fuel d)
      else let new = get_entry t converter (delegate (expanded real_path (typed (entry_of d))) t) in
        updated (on_update no_updates (entry_of d) new) (set_entry new d)

  abbrev update_impl : List JsPath → TypedPath → Bool → Directory T → Updated T
  update_impl [] t rescan d = update_self t rescan d
  update_impl (p ∷ ps) t rescan d = update_loop [] p ps t rescan no_updates d

  -- `update(typedPath, rescanDirectoriesOnUpdate)`
  unfoldable pub update : TypedPath → Bool → Directory T → Updated T
  unfolding update_self update_loop
  update t rescan d =
      if path_filter t
      then if t.exists
        then update_impl
            (if t.path == dir_path d then [] else parts node (relativize node (dir_path d) t.path))
            t rescan d
        else told_gone no_updates (remove node t.path d)
      else updated no_updates d

-- ===== src/CachedDirectory/Stale.antt =====
-- `find` after `update` of a path that is not a directory to enter.
use file_tree_views.Base.{◌≡◌, refl, ◌∙◌, Bool, true, false, some, [], ◌∷◌, str_eq, ◌==◌, ℕ}
use file_tree_views.Base.Int.{pos, leb_ℤ}
use file_tree_views.Base.Dict.{Dict, lookup, insert, erase}
use file_tree_views.Either.{right}
use file_tree_views.Path.{JsPath, parts, relativize, resolve, starts_with}
use file_tree_views.TypedPath.{TypedPath, delegate}
use file_tree_views.Entry.{Entry, typed, get_entry}
use file_tree_views.Changes.{Updates, no_updates}
use file_tree_views.CachedDirectory.Tree.{
  Setting, Directory, directory, files_of, subs_of, depth_of, dir_path, get_sub, entry_of,
}
use file_tree_views.CachedDirectory.Finding.{find, find_impl}
use file_tree_views.CachedDirectory.Removed.{find_below}
use file_tree_views.CachedDirectory.Found.{find_last_sub}
use file_tree_views.CachedDirectory.Update.{
  updated, is_entered, dir_at, put_at, resolved_update, update_file, update_name, update_loop,
  update,
}

module _ {T : Type 0} (c : Setting T) (fuel : ℕ) where
  -- The entry that a path is given under a name of a directory.
  abbrev pub fresh_entry : Directory T → JsPath → TypedPath → Entry T
  fresh_entry d p t =
      let resolved = delegate (resolve c.node (dir_path d) p) t in
      get_entry resolved c.converter resolved

  -- The directory with the file under the name.
  abbrev pub with_file : JsPath → Entry T → Directory T → Directory T
  with_file p e (directory own depth files subs) =
      directory own depth (insert p e (erase p files)) subs

  update_name-file :
      (p : JsPath) (t : TypedPath) (rescan : Bool) (u : Updates T) (d : Directory T)
      → is_entered c fuel t ≡ false
      → update_name c fuel [] d p t rescan u d
        ≡ updated
            (resolved_update c fuel (dir_path d) (lookup p (files_of d)) (fresh_entry d p t) u)
            (with_file p (fresh_entry d p t) d)
  unfolding update_name update_file put_at
  update_name-file p t rescan u (directory own depth files subs) h = rw h refl

  update-file :
      (p : JsPath) (t : TypedPath) (rescan : Bool) (d : Directory T)
      → c.path_filter t ≡ true
      → t.exists ≡ true
      → (t.path == dir_path d) ≡ false
      → parts c.node (relativize c.node (dir_path d) t.path) ≡ p ∷ []
      → leb_ℤ (pos 0) (depth_of d) ≡ true
      → is_entered c fuel t ≡ false
      → update c fuel t rescan d
        ≡ updated
            (resolved_update c fuel
              (dir_path d)
              (lookup p (files_of d))
              (fresh_entry d p t)
              no_updates)
            (with_file p (fresh_entry d p t) d)
  unfolding update update_loop dir_at
  update-file p t rescan d passes here ne names deep h =
      simp (passes, here, ne, names, deep) (update_name-file p t rescan no_updates d h)

  find-below :
      (x p : JsPath) (d : Directory T)
      → (x == dir_path d) ≡ false
      → c.node.is_absolute x ≡ true
      → starts_with x (dir_path d) ≡ true
      → parts c.node (relativize c.node (dir_path d) x) ≡ p ∷ []
      → (typed (entry_of d)).exists ≡ true
      → find c.node x d ≡ find_impl c.node (p ∷ []) d
  find-below x p d ne absolute under names there =
      find_below c.node x p [] d d refl absolute under ne names ∙ rw there refl

  -- A directory that became a file stays cached. Take a cached directory that exists, of a depth from
  -- 0 on, and an existing absolute path whose text begins with the directory's, one name below it,
  -- that passes the filter and is not a directory to enter, but under whose name a subdirectory is
  -- cached. After its update `find` of the path still gives that subdirectory.
  pub update-find_stale :
      (p : JsPath) (t : TypedPath) (rescan : Bool) (d s : Directory T)
      → c.path_filter t ≡ true
      → t.exists ≡ true
      → (t.path == dir_path d) ≡ false
      → c.node.is_absolute t.path ≡ true
      → starts_with t.path (dir_path d) ≡ true
      → parts c.node (relativize c.node (dir_path d) t.path) ≡ p ∷ []
      → (typed (entry_of d)).exists ≡ true
      → leb_ℤ (pos 0) (depth_of d) ≡ true
      → is_entered c fuel t ≡ false
      → get_sub p (subs_of d) ≡ some s
      → (u : Updates T) × (after : Directory T) × (update c fuel t rescan d ≡ updated u after)
        × (find c.node t.path after ≡ some (right s))
  update-find_stale p t rescan (directory own depth files subs) s passes here ne absolute under
        names there deep h taken =
      let d = directory own depth files subs in
      let after = with_file p (fresh_entry d p t) d in
      (
        resolved_update c fuel (typed own).path (lookup p files) (fresh_entry d p t) no_updates,
        after,
        update-file p t rescan d passes here ne names deep h,
        find-below t.path p after ne absolute under names there ∙ find_last_sub c.node p _ s taken,
      )

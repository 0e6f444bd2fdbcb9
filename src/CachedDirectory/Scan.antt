-- ===== src/CachedDirectory/Scan.antt =====
-- `init`: the directory is filled from a listing of the file system.
use file_tree_views.Base.{ℕ, zero, suc, not, ◌&&◌, ◌||◌, List, [], ◌∷◌, str_eq, if◌then◌else◌}
use file_tree_views.Base.Int.{pos, negsuc, ltb_ℤ, leb_ℤ}
use file_tree_views.Base.Dict.{insert}
use file_tree_views.Either.{Either, left, right, IoException}
use file_tree_views.Path.{JsPath, relativize, file_name}
use file_tree_views.TypedPath.{TypedPath, delegate, expanded}
use file_tree_views.Entry.{get_entry}
use file_tree_views.CachedDirectory.Tree.{
  Setting, Directory, directory, no_subs, depth_of, files_of, subs_of, dir_path, set_files,
  set_subs, put_sub, new_directory, subdirectory_depth, is_loop,
}

-- `init` ends, throws, or has no fuel left; with the directory as it then is.
pub data Scanned (T : Type 0) : Type 0 where
  filled : Directory T → Scanned T
  failed : IoException → Directory T → Scanned T
  exhausted : Scanned T

module _ {T : Type 0} (c : Setting T) where
  open c use {node, converter, path_filter, follow_links, real_path, view, file_exists}

  abbrev pub then_scan : Scanned T → (Directory T → Scanned T) → Scanned T
  then_scan (filled d) k = k d
  then_scan (failed x d) k = failed x d
  then_scan exhausted k = exhausted

  -- `relativize(path).getFileName`
  unfoldable pub key_of : Directory T → TypedPath → JsPath
  key_of d t = file_name node (relativize node (dir_path d) t.path)

  unfoldable pub put_file : TypedPath → Directory T → Directory T
  unfolding key_of
  put_file t d =
      set_files (insert (key_of d t) (get_entry (delegate (key_of d t) t) converter t) (files_of d))
        d

  unfoldable pub put_directory : TypedPath → Directory T → Directory T → Directory T
  unfolding key_of
  put_directory t s d = set_subs (put_sub (key_of d t) s (subs_of d)) d

  -- The `try` around `dir.init()`: a directory that fails is kept while it exists.
  abbrev pub scanned_child : TypedPath → Directory T → Scanned T → Scanned T
  scanned_child t d (filled s) = filled (put_directory t s d)
  scanned_child t d (failed x s) =
      filled (if file_exists (dir_path s) then put_directory t s d else d)
  scanned_child t d exhausted = exhausted

  module _ (scan : Directory T → Scanned T) where
    -- The body of the loop, for one file of the listing.
    unfoldable pub scan_file : TypedPath → Directory T → Scanned T
    unfolding put_file put_directory
    scan_file t d =
        if t.is_directory && ltb_ℤ (pos 0) (depth_of d)
        then if not t.is_symbolic_link || not (is_loop t.path (expanded real_path t))
          then scanned_child t d (scan (new_directory c t (subdirectory_depth (depth_of d))))
          else filled (put_directory t (new_directory c t (negsuc 0)) d)
        else filled (put_file t d)

    unfoldable pub scan_files : List TypedPath → Directory T → Scanned T
    unfolding scan_file
    scan_files [] d = filled d
    scan_files (t ∷ ts) d = then_scan (scan_file t d) (scan_files ts)

    abbrev pub scan_listing : Either IoException (List TypedPath) → Directory T → Scanned T
    scan_listing (left x) d = failed x d
    scan_listing (right ts) d = scan_files ts d

  -- `subdirectories.clear()` and `files.clear()`, which is also `close()`.
  unfoldable pub close : Directory T → Directory T
  close (directory e depth files subs) = directory e depth [] no_subs

  -- `init()`, whose `realPath` is `getPath`, so that the test on it holds.
  unfoldable pub init : ℕ → Directory T → Scanned T
  unfolding close scan_files
  init zero d = exhausted
  init (suc fuel) d =
      if leb_ℤ (pos 0) (depth_of d)
      then scan_listing (init fuel) (view (dir_path d)) (close d)
      else filled (close d)

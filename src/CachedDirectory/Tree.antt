-- ===== src/CachedDirectory/Tree.antt =====
-- The fields of a `CachedDirectoryImpl`, and its map of subdirectories.
use file_tree_views.Base.{
  ◌≡◌, refl, Bool, false, not, Option, none, some, List, [], str_eq, ◌==◌, if◌then◌else◌, arith,
}
use file_tree_views.Base.Int.{ℤ, pos, negsuc, ltb_ℤ, eq_ℤ, max_value, ◌+ℤ◌, to_int32}
use file_tree_views.Base.Dict.{Dict}
use file_tree_views.Either.{Either, IoException}
use file_tree_views.Path.{NodePath, JsPath, starts_with}
use file_tree_views.TypedPath.{TypedPath}
use file_tree_views.Entry.{Entry, Converter, typed, get_entry}

-- What a directory shares with its subdirectories, and what it calls outside.
pub record Setting (T : Type 0) : Type 0 where
  pub node : NodePath
  pub converter : Converter T
  pub path_filter : TypedPath → Bool
  pub follow_links : Bool
  -- `path.toRealPath()`; `none` is an `IOException`.
  pub real_path : JsPath → Option JsPath
  -- `fileTreeView.list(path, 0, pathFilter)`, of the one view that all of a tree uses
  pub view : JsPath → Either IoException (List TypedPath)
  -- `Files.exists(path)`
  pub file_exists : JsPath → Bool
  -- `TypedPaths.get(path)`
  pub typed_path_at : JsPath → TypedPath

mutual
  -- `_cacheEntry`, `depth`, `files` and `subdirectories`.
  pub data Directory (T : Type 0) : Type 0 where
    directory : Entry T → ℤ → Dict JsPath (Entry T) → Subdirectories T → Directory T

  pub data Subdirectories (T : Type 0) : Type 0 where
    no_subs : Subdirectories T
    sub : JsPath → Directory T → Subdirectories T → Subdirectories T

module _ {T : Type 0} where
  abbrev pub entry_of : Directory T → Entry T
  entry_of (directory e depth files subs) = e

  abbrev pub depth_of : Directory T → ℤ
  depth_of (directory e depth files subs) = depth

  abbrev pub files_of : Directory T → Dict JsPath (Entry T)
  files_of (directory e depth files subs) = files

  abbrev pub subs_of : Directory T → Subdirectories T
  subs_of (directory e depth files subs) = subs

  -- `getPath`
  abbrev pub dir_path : Directory T → JsPath
  dir_path d = (typed (entry_of d)).path

  abbrev pub set_entry : Entry T → Directory T → Directory T
  set_entry e (directory old depth files subs) = directory e depth files subs

  abbrev pub set_files : Dict JsPath (Entry T) → Directory T → Directory T
  set_files files (directory e depth old subs) = directory e depth files subs

  abbrev pub set_subs : Subdirectories T → Directory T → Directory T
  set_subs subs (directory e depth files old) = directory e depth files subs

  -- `subdirectories.get(p)`
  unfoldable pub get_sub : JsPath → Subdirectories T → Option (Directory T)
  get_sub p no_subs = none
  get_sub p (sub q d subs) = if p == q then some d else get_sub p subs

  -- `subdirectories.put(p, d)`
  unfoldable pub put_sub : JsPath → Directory T → Subdirectories T → Subdirectories T
  put_sub p d no_subs = sub p d no_subs
  put_sub p d (sub q c subs) = if p == q then sub p d subs else sub q c (put_sub p d subs)

  -- `subdirectories.remove(p)`
  unfoldable pub remove_sub : JsPath → Subdirectories T → Subdirectories T
  remove_sub p no_subs = no_subs
  remove_sub p (sub q c subs) =
      let rest = remove_sub p subs in if p == q then rest else sub q c rest

  pub get_sub-cons :
      (p q : JsPath) (d : Directory T) (subs : Subdirectories T)
      → get_sub p (sub q d subs) ≡ (if p == q then some d else get_sub p subs)
  unfolding get_sub
  get_sub-cons p q d subs = refl

  pub get_sub-put_sub :
      (p q : JsPath) (d : Directory T) (subs : Subdirectories T)
      → get_sub p (put_sub q d subs) ≡ (if p == q then some d else get_sub p subs)
  unfolding put_sub get_sub
  get_sub-put_sub p q d no_subs = get_sub-cons p q d no_subs
  get_sub-put_sub p q d (sub r c subs) = ground (arith, get_sub-put_sub p q d subs)

  pub get_sub-remove_sub :
      (p q : JsPath) (subs : Subdirectories T)
      → get_sub p (remove_sub q subs) ≡ (if p == q then none else get_sub p subs)
  unfolding remove_sub get_sub
  get_sub-remove_sub p q no_subs = ground arith
  get_sub-remove_sub p q (sub r c subs) = ground (arith, get_sub-remove_sub p q subs)

  -- `new CachedDirectoryImpl(typedPath, converter, depth, filter, followLinks, fileTreeView)`
  unfoldable pub new_directory : Setting T → TypedPath → ℤ → Directory T
  new_directory c t depth = directory (get_entry t c.converter t) depth [] no_subs

-- `subdirectoryDepth()` of a directory of this depth.
unfoldable pub subdirectory_depth : ℤ → ℤ
subdirectory_depth depth =
    if eq_ℤ max_value depth
    then depth
    else if ltb_ℤ (pos 0) depth
    then to_int32 (negsuc 0 +ℤ depth)
    else pos 0

-- `isLoop(path, realPath)`
unfoldable pub is_loop : JsPath → JsPath → Bool
is_loop p real = if starts_with p real then not (p == real) else false

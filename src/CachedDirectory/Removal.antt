-- ===== src/CachedDirectory/Removal.antt =====
-- `remove` and `removeImpl`: the entries that are gone, and the directory without them.
use file_tree_views.Base.{Option, none, some, List, [], ◌∷◌, ◌++◌, map, str_eq, if◌then◌else◌}
use file_tree_views.Base.Int.{max_value}
use file_tree_views.Base.Dict.{lookup, erase, values}
use file_tree_views.Either.{all_pass}
use file_tree_views.Path.{NodePath, JsPath, parts, relativize, starts_with}
use file_tree_views.Entry.{Entry, resolve_entry, set_gone}
use file_tree_views.CachedDirectory.Tree.{
  Directory, directory, Subdirectories, no_subs, sub, entry_of, files_of, subs_of, dir_path,
  set_entry, set_files, set_subs, get_sub, put_sub, remove_sub,
}
use file_tree_views.CachedDirectory.Finding.{list_entries}

abbrev pub Removed : Type 0 → Type 0
Removed T = List (Entry T) × Directory T

-- The names that lead from a path to itself.
unfoldable pub own_parts : NodePath → JsPath → List JsPath
own_parts node p = parts node (relativize node p p)

module _ (node : NodePath) {T : Type 0} where
  abbrev gone_file : JsPath → Option (Entry T) → List (Entry T)
  gone_file dir none = []
  gone_file dir (some e) = set_gone node (resolve_entry node dir e) ∷ []

  abbrev gone_directory : Option (Directory T) → List (Entry T)
  gone_directory none = []
  gone_directory (some s) =
      map (set_gone node) (list_entries node (dir_path s) max_value all_pass s)
      ++ set_gone node (entry_of s) ∷ []

  -- The last name: its file and its subdirectory leave the maps.
  unfoldable pub remove_name : JsPath → Directory T → Removed T
  remove_name p d = (
    gone_file (dir_path d) (lookup p (files_of d)) ++ gone_directory (get_sub p (subs_of d)),
    set_subs (remove_sub p (subs_of d)) (set_files (erase p (files_of d)) d),
  )

  abbrev pub put_removed : JsPath → Directory T → Removed T → Removed T
  put_removed p d (es, s) = (es, set_subs (put_sub p s (subs_of d)) d)

  -- The loop over the names, which are not empty.
  unfoldable pub remove_at : JsPath → List JsPath → Directory T → Removed T
  unfolding remove_name
  remove_at p [] d = remove_name p d
  remove_at p (q ∷ ps) d = elim (get_sub p (subs_of d)) [
    | none ↦ ([], d)
    | some s ↦ put_removed p d (remove_at q ps s)
  ]

  abbrev removed_of : Directory T → List JsPath → Removed T → Removed T
  removed_of d [] all = all
  removed_of d (p ∷ ps) all = remove_at p ps d

  abbrev with_rest :
      JsPath → Removed T → List (Entry T) × Subdirectories T → List (Entry T) × Subdirectories T
  with_rest p (es, d) (fs, subs) = (es ++ fs, sub p d subs)

  abbrev gone_all : Entry T → Directory T → List (Entry T) × Subdirectories T → Removed T
  gone_all e d (es, subs) = (
    es ++ map (set_gone node) (values (files_of d)),
    set_entry (set_gone node e) (set_subs subs d),
  )

  -- `removeImpl` of no names: each subdirectory removes itself, by `dir.remove(dir.getPath)`.
  unfoldable mutual
    unfolding remove_at own_parts

    pub remove_self : Directory T → Removed T
    remove_self (directory e depth files subs) =
        gone_all e (directory e depth files subs) (remove_subs subs)

    pub remove_subs : Subdirectories T → List (Entry T) × Subdirectories T
    remove_subs no_subs = ([], no_subs)
    remove_subs (sub p d subs) =
        with_rest p
          (if node.is_absolute (dir_path d)
            then removed_of d (own_parts node (dir_path d)) (remove_self d)
            else ([], d))
          (remove_subs subs)

  -- `removeImpl(parts)`
  unfoldable pub remove_impl : List JsPath → Directory T → Removed T
  unfolding remove_at remove_self
  remove_impl [] d = remove_self d
  remove_impl (p ∷ ps) d = remove_at p ps d

  -- `remove(path)`
  unfoldable pub remove : JsPath → Directory T → Removed T
  unfolding remove_impl
  remove p d =
      if node.is_absolute p
      then if starts_with p (dir_path d)
        then remove_impl (parts node (relativize node (dir_path d) p)) d
        else ([], d)
      else ([], d)

-- ===== src/CachedDirectory/Finding.antt =====
-- `find`, `findImpl`, `listImpl`, `list` and `listEntries`.
use file_tree_views.Base.{
  Bool, ◌&&◌, ◌||◌, Option, none, some, List, [], ◌∷◌, ◌++◌, str_eq, ◌==◌, if◌then◌else◌,
}
use file_tree_views.Base.Int.{ℤ, pos, negsuc, ltb_ℤ, eq_ℤ, ◌+ℤ◌, to_int32}
use file_tree_views.Base.Dict.{lookup, values}
use file_tree_views.Either.{Either, left, right}
use file_tree_views.Path.{NodePath, JsPath, parts, relativize, starts_with}
use file_tree_views.TypedPath.{TypedPath, delegate}
use file_tree_views.Entry.{Entry, typed, resolve_entry}
use file_tree_views.CachedDirectory.Tree.{
  Directory, directory, Subdirectories, no_subs, sub, entry_of, files_of, subs_of, dir_path,
  get_sub,
}

abbrev pub Found : Type 0 → Type 0
Found T = Option (Either (Entry T) (Directory T))

-- `filter.accept(resolved)` before `result.add(resolved)`
abbrev pub admit {ℓ} : {R : Type ℓ} → (R → Bool) → R → List R
admit accept r = if accept r then r ∷ [] else []

module _ (node : NodePath) {T : Type 0} where
  abbrev pub found_file : JsPath → Option (Entry T) → Found T
  found_file dir none = none
  found_file dir (some e) = some (left (resolve_entry node dir e))

  -- `findImpl(parts)`; `none` is `null`.
  unfoldable pub find_impl : List JsPath → Directory T → Found T
  find_impl [] d = none
  find_impl (p ∷ []) d = elim (get_sub p (subs_of d)) [
    | none ↦ found_file (dir_path d) (lookup p (files_of d))
    | some s ↦ some (right s)
  ]
  find_impl (p ∷ q ∷ ps) d = elim (get_sub p (subs_of d)) [
    | none ↦ none
    | some s ↦ find_impl (q ∷ ps) s
  ]

  -- `find(path)`
  unfoldable pub find : JsPath → Directory T → Found T
  find p d =
      if (typed (entry_of d)).exists
      then if p == dir_path d
        then some (right d)
        else if node.is_absolute p
        then if starts_with p (dir_path d)
          then find_impl (parts node (relativize node (dir_path d) p)) d
          else none
        else find_impl (parts node p) d
      else none

  module _ {R : Type 0} (accept : R → Bool) (transform : Entry T → R) where
    -- The loop over the files, with the path of the directory.
    unfoldable pub list_files : JsPath → List (Entry T) → List R
    list_files dir [] = []
    list_files dir (e ∷ es) =
        admit accept (transform (resolve_entry node dir e)) ++ list_files dir es

    -- `listImpl(maxDepth, filter, result, function)` and its loop over the subdirectories.
    unfoldable mutual
      unfolding list_files

      pub list_impl : ℤ → Directory T → List R
      list_impl m (directory e depth files subs) =
          if ltb_ℤ depth (pos 0) || ltb_ℤ m (pos 0)
          then transform e ∷ []
          else list_files (typed e).path (values files) ++ list_subs m (typed e).path subs

      pub list_subs : ℤ → JsPath → Subdirectories T → List R
      list_subs m dir no_subs = []
      list_subs m dir (sub p d subs) =
          admit accept (transform (resolve_entry node dir (entry_of d)))
          ++ ((if ltb_ℤ (pos 0) m then list_impl (to_int32 (negsuc 0 +ℤ m)) d else [])
              ++ list_subs m dir subs)

  abbrev pub own_typed_path : Entry T → TypedPath
  own_typed_path e = delegate (typed e).path (typed e)

  abbrev pub listed : ℤ → (TypedPath → Bool) → Found T → List TypedPath
  listed m accept none = []
  listed m accept (some (right d)) = list_impl accept own_typed_path m d
  listed m accept (some (left e)) =
      if accept (typed e) && eq_ℤ (negsuc 0) m then own_typed_path e ∷ [] else []

  -- `list(path, maxDepth, filter)`
  unfoldable pub list : JsPath → ℤ → (TypedPath → Bool) → Directory T → List TypedPath
  unfolding find
  list p m accept d = listed m accept (find p d)

  abbrev same : Entry T → Entry T
  same e = e

  abbrev pub listed_entries : ℤ → (Entry T → Bool) → Found T → List (Entry T)
  listed_entries m accept none = []
  listed_entries m accept (some (right d)) = list_impl accept same m d
  listed_entries m accept (some (left e)) = admit accept e

  -- `listEntries(path, maxDepth, filter)`
  unfoldable pub list_entries : JsPath → ℤ → (Entry T → Bool) → Directory T → List (Entry T)
  unfolding find
  list_entries p m accept d = listed_entries m accept (find p d)

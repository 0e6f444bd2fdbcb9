-- ===== src/DirectoryTree/Lookup.antt =====
-- `find`, `list` and `listEntries`.
use file_tree_views.Base.{
  Bool, true, false, ◌&&◌, ◌||◌, Option, none, some, List, [], ◌∷◌, str_eq, ◌==◌, if◌then◌else◌,
}
use file_tree_views.Base.Int.{ℤ, negsuc, ltb_ℤ, leb_ℤ, eq_ℤ, max_value}
use file_tree_views.Base.Dict.{Dict}
use file_tree_views.Path.{NodePath, JsPath, starts_with}
use file_tree_views.TypedPath.{TypedPath, delegate}
use file_tree_views.Entry.{Entry, typed}
use file_tree_views.CachedDirectory.Tree.{Directory, entry_of, depth_of, dir_path}
use file_tree_views.CachedDirectory.Finding
use file_tree_views.DirectoryTree.Sorting.{less, sort}
use file_tree_views.DirectoryTree.State.{Cache, depth_in, depth_for}

abbrev least : ℤ → ℤ → ℤ
least a b = if ltb_ℤ a b then a else b

module _ (node : NodePath) {T : Type 0} where
  -- Whether a directory is deep enough to hold the path.
  unfoldable pub covers : JsPath → Directory T → Bool
  covers p d =
      if starts_with p (dir_path d)
      then if eq_ℤ max_value (depth_of d) || p == dir_path d
        then true
        else leb_ℤ (depth_in node (dir_path d) p) (depth_of d)
      else false

  -- A cached directory with its key.
  unfoldable pub first_covering : JsPath → Dict JsPath (Directory T) → Option (JsPath × Directory T)
  unfolding covers
  first_covering p [] = none
  first_covering p ((k, d) ∷ ds) =
      let rest = first_covering p ds in if covers p d then some (k, d) else rest

  -- The comparator: greater paths come first.
  abbrev pub descends : JsPath × Directory T → JsPath × Directory T → Bool
  descends a b = less (dir_path b.1) (dir_path a.1)

  -- `find(path)`
  unfoldable pub find : JsPath → Dict JsPath (Directory T) → Option (JsPath × Directory T)
  unfolding first_covering
  find p ds = first_covering p (sort descends ds)

  abbrev pub is_leaf : JsPath → Directory T → Bool
  is_leaf p d = dir_path d == p && eq_ℤ (negsuc 0) (depth_of d)

  -- `list(path, maxDepth, filter)`
  unfoldable pub list : JsPath → ℤ → (TypedPath → Bool) → Cache T → List TypedPath
  unfolding find
  list p m accept s = elim (find p s.directories) [
    | none ↦ []
    | some (k, d) ↦
        if is_leaf p d
        then delegate (dir_path d) (typed (entry_of d)) ∷ []
        else Finding.list node p m accept d
  ]

  -- `listEntries(path, maxDepth, filter)`
  unfoldable pub list_entries : JsPath → ℤ → (Entry T → Bool) → Cache T → List (Entry T)
  unfolding find
  list_entries p m accept s = elim (find p s.directories) [
    | none ↦ []
    | some (k, d) ↦
        if is_leaf p d
        then entry_of d ∷ []
        else Finding.list_entries node p (least (depth_for node s.watched p) m) accept d
  ]

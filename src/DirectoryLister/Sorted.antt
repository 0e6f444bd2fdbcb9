-- ===== src/DirectoryLister/Sorted.antt =====
-- How often each child of a directory is listed, and where.
use file_tree_views.Base.{
  ◌≡◌, refl, ◌∙◌, false, Option, none, some, List, [], ◌∷◌, ◌++◌, Str, str_eq, ◌==◌, All,
  if◌then◌else◌, arith,
}
use file_tree_views.Path.{JsPath, resolve, file_name}
use file_tree_views.FileTreeView.Listing.{ListResults}
use file_tree_views.DirectoryLister.{
  ChildAttributes, Disk, Walk, visit_file, after_child, walk_children,
}

pub data Kind : Type 0 where
  unreadable link_kind directory_kind file_kind : Kind

abbrev pub kind_of : Option ChildAttributes → Kind
kind_of none = unreadable
kind_of (some a) =
    if a.is_link then link_kind else if a.is_directory then directory_kind else file_kind

-- A child among the results of its kind.
abbrev pub add_name : Kind → Str → ListResults → ListResults
add_name unreadable n r = r
add_name link_kind n r = record r { symlinks = r.symlinks ++ n ∷ [] }
add_name directory_kind n r = record r { directories = r.directories ++ n ∷ [] }
add_name file_kind n r = record r { files = r.files ++ n ∷ [] }

module _ (disk : Disk) (base : JsPath) where
  abbrev pub child : Str → JsPath
  child f = resolve disk.node base f

  -- The names by their kinds, in the order of the directory.
  abbrev pub sort_names : List Str → ListResults → ListResults
  sort_names [] r = r
  sort_names (f ∷ fs) r =
      sort_names fs
        (add_name (kind_of (disk.child_attributes (child f))) (file_name disk.node (child f)) r)

  abbrev walked : ListResults → Walk
  walked r = record { results = r; is_symlink = false; exception = none }

  child_sorted :
      (p : JsPath) (o : Option ChildAttributes) (r : ListResults) (k : Walk → Walk)
      → (p == base) ≡ false
      → after_child disk base p o (walked r) k
        ≡ k (walked (add_name (kind_of o) (file_name disk.node p) r))
  unfolding visit_file
  child_sorted p none r k h = refl
  child_sorted p (some a) r k h = ground (arith, h)

  -- Where no child is the directory itself, the walk lists each readable child once, a link among
  -- the links, another directory among the directories and anything else among the files, each in the
  -- order of the directory, and it neither takes the directory for a link nor records an exception.
  pub walk_children-sort_names :
      (fs : List Str) (r : ListResults)
      → All (λ f. (child f == base) ≡ false) fs
      → walk_children disk base fs (record { results = r; is_symlink = false; exception = none })
        ≡ record { results = sort_names fs r; is_symlink = false; exception = none }
  unfolding walk_children
  walk_children-sort_names [] r h = refl
  walk_children-sort_names (f ∷ fs) r (h, hs) =
      child_sorted (child f) (disk.child_attributes (child f)) r (walk_children disk base fs) h
      ∙ walk_children-sort_names fs
          (add_name (kind_of (disk.child_attributes (child f))) (file_name disk.node (child f)) r)
          hs

-- ===== src/DirectoryLister.antt =====
-- com/swoval/files/NioDirectoryLister.scala and the walk to depth 1 of `Files.walkFileTree`
-- (nio-js/src/main/scala/java/nio/file/Files.scala), as they stand in files/js/npm/files.js
-- (`NioDirectoryLister`, `NioDirectoryLister$$anon$1`, `Files$`): the names in a directory, by kind.
pub mod Sorted
use file_tree_views.Base.{
  Bool, true, false, Option, none, some, List, [], ◌∷◌, ◌++◌, Str, str_eq, ◌==◌, if◌then◌else◌,
}
use file_tree_views.Either.{Either, left, right, IoException, not_directory}
use file_tree_views.Path.{NodePath, JsPath, resolve, file_name}
use file_tree_views.FileTreeView.Listing.{ListResults}

-- What `lstat` tells of a child.
pub record ChildAttributes : Type 0 where
  pub is_link : Bool
  pub is_directory : Bool

-- The file system: `readdirSync`, and `readAttributes` of a child, where `none` is an exception.
pub record Disk : Type 0 where
  pub node : NodePath
  pub read_directory : JsPath → Either IoException (List Str)
  pub child_attributes : JsPath → Option ChildAttributes

-- `results`, `isSymlink` and `exception`.
pub record Walk : Type 0 where
  pub results : ListResults
  pub is_symlink : Bool
  pub exception : Option IoException

abbrev pub add_symlink_name : Str → Walk → Walk
add_symlink_name n w = record w {
  results = record w.results { symlinks = w.results.symlinks ++ n ∷ [] };
}

abbrev pub add_directory_name : Str → Walk → Walk
add_directory_name n w = record w {
  results = record w.results { directories = w.results.directories ++ n ∷ [] };
}

abbrev pub add_file_name : Str → Walk → Walk
add_file_name n w = record w { results = record w.results { files = w.results.files ++ n ∷ [] } }

-- `CONTINUE`, `TERMINATE`, or the exception that is thrown.
pub data Visited : Type 0 where
  continued : Walk → Visited
  terminated : Walk → Visited
  threw : IoException → Walk → Visited

module _ (disk : Disk) (base : JsPath) where
  abbrev pub flagged : Walk → Visited
  flagged w = if w.is_symlink then terminated w else continued w

  -- `visitFile(file, attrs)`
  unfoldable pub visit_file : JsPath → ChildAttributes → Walk → Visited
  visit_file p a w =
      if a.is_link
      then if p == base
        then terminated (record w { is_symlink = true })
        else flagged (add_symlink_name (file_name disk.node p) w)
      else if a.is_directory
      then flagged (add_directory_name (file_name disk.node p) w)
      else if p == base
      then threw (not_directory base) w
      else flagged (add_file_name (file_name disk.node p) w)

  -- What the walk does after a child: of a directory it goes on whatever the visitor says.
  abbrev pub after_directory : Visited → (Walk → Walk) → Walk
  after_directory (continued w) k = k w
  after_directory (terminated w) k = k w
  after_directory (threw x w) k = k w

  abbrev pub after_file : Visited → (Walk → Walk) → Walk
  after_file (continued w) k = k w
  after_file (terminated w) k = w
  after_file (threw x w) k = k (record w { exception = some x })

  abbrev pub after_child : JsPath → Option ChildAttributes → Walk → (Walk → Walk) → Walk
  after_child p none w k = k w
  after_child p (some a) w k =
      if a.is_directory
      then after_directory (visit_file p a w) k
      else after_file (visit_file p a w) k

  -- The loop of `walkFileTree` over the children.
  unfoldable pub walk_children : List Str → Walk → Walk
  unfolding visit_file
  walk_children [] w = w
  walk_children (f ∷ fs) w =
      after_child (resolve disk.node base f) (disk.child_attributes (resolve disk.node base f)) w
        (walk_children fs)

  abbrev started : Walk
  started = record {
    results = record { directories = []; files = []; symlinks = [] };
    is_symlink = false;
    exception = none;
  }

  abbrev walked_names : Either IoException (List Str) → Either IoException Walk
  walked_names (left x) = left x
  walked_names (right fs) = right (walk_children fs started)

  -- `Files.walkFileTree(basePath, linkOptions, 1, visitor)`, as `apply` calls it.
  unfoldable pub walk_file_tree : Either IoException Walk
  unfolding walk_children
  walk_file_tree = walked_names (disk.read_directory base)

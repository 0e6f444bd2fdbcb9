-- ===== src/Tests/Reading.antt =====
-- An example of the theorem on reading a directory.
use file_tree_views.Base.{
  ◌≡◌, refl, true, false, some, none, [], ◌∷◌, str_eq, ◌==◌, if◌then◌else◌, All,
}
use file_tree_views.Either.{right}
use file_tree_views.Path.{resolve, js_path, strip_separator}
use file_tree_views.FileTreeView.Listing.{ListResults}
use file_tree_views.DirectoryLister.{Disk, walk_children}
use file_tree_views.DirectoryLister.Sorted.{walk_children-sort_names, sort_names, child}
use file_tree_views.Tests.{posix, a_path, b_path, b_name, c_name}

-- `/a` holds the directory `b` and the link `c`.
abbrev two_children : Disk
two_children = record {
  node = posix;
  read_directory = λ _. right (b_name ∷ c_name ∷ []);
  child_attributes = λ p. some (
      if p == b_path
      then record { is_link = false; is_directory = true }
      else record { is_link = true; is_directory = false });
}

abbrev nothing_yet : ListResults
nothing_yet = record { directories = []; files = []; symlinks = [] }

others : All (λ f. (child two_children a_path f == a_path) ≡ false) (b_name ∷ c_name ∷ [])
unfolding resolve js_path strip_separator str_eq
others = (refl, (refl, tt))

walk_children-sort_names_example :
    walk_children two_children a_path
      (b_name ∷ c_name ∷ [])
      (record { results = nothing_yet; is_symlink = false; exception = none })
    ≡ record {
      results = sort_names two_children a_path (b_name ∷ c_name ∷ []) nothing_yet;
      is_symlink = false;
      exception = none;
    }
walk_children-sort_names_example =
    walk_children-sort_names two_children a_path (b_name ∷ c_name ∷ []) nothing_yet others

-- ===== src/Tests/Views.antt =====
-- Examples of the theorems on listing the file system.
use file_tree_views.Base.{
  ◌≡◌, ◌≢◌, refl, Bool, true, false, [], ◌∷◌, str_eq, ◌==◌, if◌then◌else◌, arith,
}
use file_tree_views.Base.Int.{pos}
use file_tree_views.Either.{right, all_pass}
use file_tree_views.Path.{JsPath, to_absolute}
use file_tree_views.TypedPath.{TypedPath}
use file_tree_views.FileTreeView.Steps.{State, done, exhausted}
use file_tree_views.FileTreeView.Listing.{
  Lister, decrement, enter_link, fill_results, list_one, directories_loop, files_loop, links_loop,
  visit,
}
use file_tree_views.FileTreeView.{list}
use file_tree_views.FileTreeView.Filtered.{select, list-select}
use file_tree_views.FileTreeView.Bounded.{list_ends}
use file_tree_views.FileTreeView.Visited.{fill_results-enter_link}
use file_tree_views.Tests.{posix, a_path, b_path, c_path, b_name, c_name}

abbrev at_path : JsPath → Bool → TypedPath
at_path p dir = record {
  path = p;
  exists = true;
  is_directory = dir;
  is_file = false;
  is_symbolic_link = false;
}

-- `/a` holds the directory `b`, which is empty, and the link `c` back to `/a`.
abbrev looped : Lister
looped = record {
  node = posix;
  follow_links = true;
  ignore_exceptions = false;
  list_directory = λ p _.
      if p == b_path
      then right (record { directories = []; files = []; symlinks = [] })
      else right (record { directories = b_name ∷ []; files = []; symlinks = c_name ∷ [] });
  read_attributes = λ _. right (record { target_is_directory = true; target_is_file = false });
  to_real_path = λ _. right a_path;
  typed_path_at = λ p. at_path p true;
}

abbrev only_directories : TypedPath → Bool
only_directories t = t.is_directory

list-select_example :
    list looped 3 a_path (pos 1) only_directories
    ≡ select only_directories (list looped 3 a_path (pos 1) all_pass)
list-select_example = list-select looped 3 a_path (pos 1) only_directories

list_ends_example : list looped 3 a_path (pos 2) only_directories ≢ exhausted
list_ends_example = list_ends looped only_directories 3 a_path (pos 2) (omega arith) (omega arith)

abbrev before : State
before = record { visited = a_path ∷ []; result = [] }

abbrev emptied : State
emptied = record { visited = []; result = [] }

b_listed : fill_results looped only_directories 1 b_path (pos 0) before ≡ done tt emptied
unfolding fill_results list_one directories_loop files_loop links_loop visit to_absolute str_eq
b_listed = refl

fill_results-enter_link_example :
    enter_link looped only_directories
      (fill_results looped only_directories 1)
      c_path
      (pos 1)
      (at_path c_path true)
      emptied
    ≡ fill_results looped only_directories 1 c_path
        (decrement (pos 1))
        (record emptied { visited = a_path ∷ [] })
fill_results-enter_link_example =
    fill_results-enter_link looped only_directories 1 b_path c_path a_path (pos 1) (pos 0)
      (at_path c_path true) before emptied b_listed refl

-- ===== src/Tests/Linking.antt =====
-- Examples of the theorems on the links to watched targets.
use file_tree_views.Base.{◌&&◌, not, ◌≡◌, refl, true, false, [], str_eq, ◌==◌}
use file_tree_views.Base.Int.{pos}
use file_tree_views.Base.Dict.{lookup}
use file_tree_views.Either.{right}
use file_tree_views.Path.{starts_with}
use file_tree_views.SymlinkWatcher.{Calls, Links, add_symlink, remove, close}
use file_tree_views.SymlinkWatcher.Used.{IsUsed, add_symlink-remove-IsUsed}
use file_tree_views.SymlinkWatcher.Undone.{remove-add_symlink}
use file_tree_views.Tests.{b_path, c_path}

-- The link `/a/b` leads to `/a/c`.
abbrev pub b_to_c : Calls
b_to_c = record { to_real_path = λ _. right c_path; register = λ _ _. right true }

abbrev pub no_links : Links
no_links = record { is_closed = false; targets = [] }

pub no_links-IsUsed : IsUsed no_links
unfolding lookup
no_links-IsUsed t e = cc

add_symlink-remove-IsUsed_example :
    IsUsed (add_symlink b_to_c b_path (pos 2) no_links).1
    × IsUsed (remove b_path no_links)
    × IsUsed (close no_links)
add_symlink-remove-IsUsed_example =
    add_symlink-remove-IsUsed b_to_c b_path (pos 2) no_links no_links-IsUsed

pub no_loop : (starts_with b_path c_path && not (b_path == c_path)) ≡ false
unfolding starts_with str_eq
no_loop = refl

remove-add_symlink_example :
    lookup c_path (remove b_path (add_symlink b_to_c b_path (pos 2) no_links).1).targets
    ≡ lookup c_path no_links.targets
remove-add_symlink_example =
    remove-add_symlink b_to_c b_path c_path c_path (pos 2) no_links refl refl no_loop refl tt
      no_links-IsUsed

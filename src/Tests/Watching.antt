-- ===== src/Tests/Watching.antt =====
-- Examples of the theorems on the directory registry and on locks.
use file_tree_views.Base.{◌≡◌, refl, true, false, some, [], ◌∷◌, ◌++◌, str_eq, arith, All}
use file_tree_views.Base.Int.{ℤ, pos, negsuc, leb_ℤ}
use file_tree_views.Base.Dict.{values}
use file_tree_views.Path.{
  relativize, name_count, parts, full_path, split_names, js_path, split_sep, drop_trailing,
  drop_first, strip_separator, begin_name, keep_name,
}
use file_tree_views.Path.Names.{render, split_names-render}
use file_tree_views.Registry.{
  DirectoryRegistry, registered_directory, depth_below, accept, max_depth_for,
}
use file_tree_views.Registry.Accept.{IsEntry, AreShort, ReachesSelf, accept-max_depth_for}
use file_tree_views.Registry.Siblings.{accept_sibling}
use file_tree_views.Tests.{posix, a_path, b_path, b_name}

-- `/a` is watched at depth 2.
abbrev pub watch_a : DirectoryRegistry
watch_a = record {
  guard = record { holds = 0; interrupted = false };
  entries = (a_path, registered_directory a_path (pos 2)) ∷ [];
}

a-IsEntry : IsEntry (a_path, registered_directory a_path (pos 2))
unfolding registered_directory
a-IsEntry = record { keyed = refl; built = refl; upper = omega arith }

a-ReachesSelf : All ReachesSelf (values watch_a.entries)
unfolding values registered_directory
a-ReachesSelf = (omega arith, tt)

one_name : name_count posix (relativize posix a_path b_path) ≡ 1
unfolding name_count relativize parts full_path split_names js_path split_sep drop_trailing
    drop_first strip_separator begin_name keep_name str_eq
one_name = refl

b_below : depth_below posix a_path b_path ≡ 1
unfolding depth_below str_eq
b_below = one_name

a_short : AreShort posix b_path (values watch_a.entries)
unfolding values registered_directory
a_short = (omega (arith, b_below), tt)

accept-max_depth_for_example :
    (z : ℤ) × (max_depth_for posix b_path watch_a ≡ some (z, watch_a))
    × (accept posix b_path watch_a ≡ some (leb_ℤ (negsuc 0) z, watch_a))
accept-max_depth_for_example =
    accept-max_depth_for posix b_path watch_a a_short refl (a-IsEntry, tt) a-ReachesSelf

two_names : name_count posix (relativize posix a_path (a_path ++ b_name)) ≡ 2
unfolding name_count relativize parts full_path split_names js_path split_sep drop_trailing
    drop_first strip_separator begin_name keep_name str_eq
two_names = refl

accept_sibling_example : accept posix (a_path ++ b_name) watch_a ≡ some (true, watch_a)
accept_sibling_example =
    accept_sibling posix a_path b_name 2 watch_a (omega arith) (omega (arith, two_names)) refl refl

split_names-render_example : split_names (render (b_name ∷ [])) ≡ b_name ∷ []
split_names-render_example = split_names-render (b_name ∷ []) (((λ e. cc), (refl, tt)), tt)

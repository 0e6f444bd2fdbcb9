-- ===== src/Tests/Caching.antt =====
-- Examples of the theorems on cached directories.
use file_tree_views.Base.{ℕ, ◌≡◌, ◌≢◌, refl, true, false, none, some, [], ◌∷◌, str_eq, ◌==◌, arith}
use file_tree_views.Base.Int.{pos}
use file_tree_views.Either.{right, all_pass}
use file_tree_views.Path.{
  JsPath, parts, relativize, starts_with, full_path, split_names, js_path, split_sep, drop_trailing,
  drop_first, strip_separator, begin_name, keep_name,
}
use file_tree_views.TypedPath.{TypedPath}
use file_tree_views.Entry.{valid}
use file_tree_views.Changes.{Updates}
use file_tree_views.CachedDirectory.Tree.{Setting, Directory, directory, no_subs, sub, get_sub}
use file_tree_views.CachedDirectory.Finding.{find}
use file_tree_views.CachedDirectory.Removal.{remove}
use file_tree_views.CachedDirectory.Removed.{remove-find}
use file_tree_views.CachedDirectory.Scan.{init, exhausted}
use file_tree_views.CachedDirectory.Layered.{EndsLayered, init-EndsLayered}
use file_tree_views.CachedDirectory.Filled.{init_ends}
use file_tree_views.CachedDirectory.Update.{update, updated, is_entered}
use file_tree_views.CachedDirectory.Stale.{update-find_stale}
use file_tree_views.CachedDirectory.Listed.{IsDeep}
use file_tree_views.Tests.{posix, a_path, b_path, c_path, b_name, c_name}

abbrev pub file_at : JsPath → TypedPath
file_at p = record {
  path = p;
  exists = true;
  is_directory = false;
  is_file = true;
  is_symbolic_link = false;
}

abbrev pub directory_at : JsPath → TypedPath
directory_at p = record {
  path = p;
  exists = true;
  is_directory = true;
  is_file = false;
  is_symbolic_link = false;
}

abbrev pub on_disk : Setting ℕ
on_disk = record {
  node = posix;
  converter = λ _. right 9;
  path_filter = all_pass;
  follow_links = true;
  real_path = λ p. some p;
  view = λ p. right (file_at c_path ∷ []);
  file_exists = λ _. true;
  typed_path_at = file_at;
}

-- `/a` at depth 1, with the directory `b` and the file `c`.
abbrev pub b_cached : Directory ℕ
b_cached = directory (valid (directory_at b_path) 2) (pos 0) [] no_subs

abbrev pub a_cached : Directory ℕ
a_cached =
    directory (valid (directory_at a_path) 1) (pos 1) ((c_name, valid (file_at c_name) 3) ∷ [])
      (sub b_name b_cached no_subs)

b_parts : parts posix (relativize posix a_path b_path) ≡ b_name ∷ []
unfolding relativize parts full_path split_names js_path split_sep drop_trailing drop_first
    strip_separator begin_name keep_name str_eq
b_parts = refl

b_under : starts_with b_path a_path ≡ true
unfolding starts_with str_eq
b_under = refl

b_differs : (b_path == a_path) ≡ false
unfolding str_eq
b_differs = refl

remove-find_example : find posix b_path (remove posix b_path a_cached).1 ≡ none
remove-find_example = remove-find posix b_path b_name [] a_cached refl b_under b_differs b_parts

init-EndsLayered_example : EndsLayered (pos 1) (init on_disk 2 a_cached)
init-EndsLayered_example = init-EndsLayered on_disk (pos 1) 2 a_cached refl (omega arith)

init_ends_example : init on_disk 2 a_cached ≢ exhausted
init_ends_example = init_ends on_disk 1 2 a_cached refl (omega arith) (omega arith)

has_b : get_sub b_name (sub b_name b_cached no_subs) ≡ some b_cached
unfolding get_sub str_eq
has_b = refl

not_entered : (p : JsPath) → is_entered on_disk 2 (file_at p) ≡ false
unfolding is_entered
not_entered p = refl

update-find_stale_example :
    (u : Updates ℕ) × (after : Directory ℕ) × (update on_disk 2 (file_at b_path) true a_cached
      ≡ updated u after)
    × (find posix b_path after ≡ some (right b_cached))
update-find_stale_example =
    update-find_stale on_disk 2 b_name (file_at b_path) true a_cached b_cached refl refl b_differs
      refl b_under b_parts refl refl (not_entered b_path) has_b

pub a_found : find posix a_path a_cached ≡ some (right a_cached)
unfolding find str_eq
a_found = refl

pub a-IsDeep : IsDeep a_cached
unfolding IsDeep
a-IsDeep = (refl, ((refl, tt), tt))

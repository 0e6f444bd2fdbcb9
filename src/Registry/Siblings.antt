-- ===== src/Registry/Siblings.antt =====
-- A directory beside a registered one, whose name merely begins with the other's.
use file_tree_views.Base.{ℕ, ◌≤◌, ◌≡◌, true, false, some, [], ◌∷◌, ◌++◌, Str, arith, str_eq}
use file_tree_views.Base.Int.{pos, to_int32_fits, ◌+ℤ◌}
use file_tree_views.Path.{NodePath, JsPath, relativize, name_count}
use file_tree_views.Path.Prefix.{starts_with-append}
use file_tree_views.Registry.{
  DirectoryRegistry, registered_directory, accepts, accept, accept_loop, accept_entry,
}
use file_tree_views.Registry.Accept.{accept_runs}

accepts_sibling :
    (node : NodePath) (d : JsPath) (s : Str) (n : ℕ)
    → n ≤ 2147483647
    → name_count node (relativize node d (d ++ s)) ≤ n
    → accepts node (registered_directory d (pos n)) (d ++ s) ≡ true
unfolding accepts registered_directory
accepts_sibling node d s n fits near =
    ground (arith, starts_with-append d s, to_int32_fits (pos 1 +ℤ pos n))

-- `accept` takes any path whose text begins with that of a registered directory, when node's
-- `relative` leads from one to the other in no more names than the registered depth. With the two
-- names of `../bar2`, a registration of `/foo/bar` at depth 2 makes `/foo/bar2` accepted, which does
-- not lie in it. Stated for an uninterrupted thread and a registry of that one directory.
pub accept_sibling :
    (node : NodePath) (d : JsPath) (s : Str) (n : ℕ) (m : DirectoryRegistry)
    → n ≤ 2147483647
    → name_count node (relativize node d (d ++ s)) ≤ n
    → m.guard.interrupted ≡ false
    → m.entries ≡ (d, registered_directory d (pos n)) ∷ []
    → accept node (d ++ s) m ≡ some (true, m)
unfolding accept_loop accept_entry
accept_sibling node d s n m fits near free single = ground (
  arith,
  accept_runs node (d ++ s) m free,
  accepts_sibling node d s n fits near,
  starts_with-append d s,
  single,
)

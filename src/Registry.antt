-- ===== src/Registry.antt =====
-- com/swoval/files/DirectoryRegistry.scala, as it stands in files/js/npm/files.js
-- (`DirectoryRegistryImpl`): which directories are watched, and how deep.
pub mod Depth
pub mod Accept
pub mod Update
pub mod Siblings
use file_tree_views.Base.{
  ℕ, Bool, true, false, ◌&&◌, ◌||◌, Option, none, some, List, [], ◌∷◌, ◌==◌, str_eq, if◌then◌else◌,
}
use file_tree_views.Base.Int.{
  ℤ, pos, negsuc, ◌+ℤ◌, ◌-ℤ◌, ltb_ℤ, leb_ℤ, eq_ℤ, max_value, min_value, to_int32,
}
use file_tree_views.Base.Dict.{Dict, insert}
use file_tree_views.Path.{NodePath, JsPath, starts_with, relativize, name_count}
use file_tree_views.Locks.{
  M, LockableMap, with_lock, get, put, remove, values_of, iterator, clear, ◌>>=◌, ◌>>◌, pure,
}

pub record RegisteredDirectory : Type 0 where
  pub path : JsPath
  pub max_depth : ℤ
  pub comp_max_depth : ℤ

-- `new RegisteredDirectory(path, maxDepth)`
unfoldable pub registered_directory : JsPath → ℤ → RegisteredDirectory
unfolding to_int32
registered_directory p n = record {
  path = p;
  max_depth = n;
  comp_max_depth = if eq_ℤ n max_value then n else to_int32 (pos 1 +ℤ n);
}

abbrev pub DirectoryRegistry : Type 0
DirectoryRegistry = LockableMap JsPath RegisteredDirectory

module _ (node : NodePath) where
  -- How many names `p` has below `d`.
  unfoldable pub depth_below : JsPath → JsPath → ℕ
  depth_below d p = if d == p then 0 else name_count node (relativize node d p)

  -- `RegisteredDirectory.accept`
  unfoldable pub accepts : RegisteredDirectory → JsPath → Bool
  accepts d p =
      starts_with p d.path
      && (p == d.path || leb_ℤ (pos (name_count node (relativize node d.path p))) d.comp_max_depth)

  -- One turn of the loop of `maxDepthFor`.
  unfoldable pub better : JsPath → RegisteredDirectory → ℤ → ℤ
  better p d best =
      if starts_with p d.path
      then (let possible = to_int32 (d.max_depth -ℤ pos (depth_below d.path p)) in
          if ltb_ℤ best possible then possible else best)
      else best

  unfoldable pub max_depth_loop : JsPath → List RegisteredDirectory → ℤ → ℤ
  max_depth_loop p [] best = best
  max_depth_loop p (d ∷ ds) best = max_depth_loop p ds (better p d best)

  unfoldable pub max_depth_for : JsPath → M DirectoryRegistry ℤ
  max_depth_for p = with_lock (do ds ← values_of; pure (max_depth_loop p ds min_value)) (negsuc 0)

  -- One turn of the loop of `acceptImpl`.
  unfoldable pub accept_entry : JsPath → Bool → JsPath → RegisteredDirectory → Bool
  accept_entry p prefix watch d =
      if prefix && starts_with watch p
      then true
      else if starts_with p watch
      then accepts d p
      else false

  unfoldable pub accept_loop : JsPath → Bool → Dict JsPath RegisteredDirectory → Bool
  accept_loop p prefix [] = false
  accept_loop p prefix ((watch, d) ∷ es) =
      let rest = accept_loop p prefix es in if accept_entry p prefix watch d then true else rest

  unfoldable pub accept_impl : JsPath → Bool → M DirectoryRegistry Bool
  accept_impl p prefix = with_lock (do es ← iterator; pure (accept_loop p prefix es)) false

  unfoldable pub accept : JsPath → M DirectoryRegistry Bool
  unfolding accept_impl
  accept p = accept_impl p false

  unfoldable pub accept_prefix : JsPath → M DirectoryRegistry Bool
  unfolding accept_impl
  accept_prefix p = accept_impl p true

-- Whether `addDirectory` replaces what it finds.
unfoldable pub is_deeper : ℤ → Option RegisteredDirectory → Bool
is_deeper n none = true
is_deeper n (some d) = ltb_ℤ d.max_depth n

abbrev register : JsPath → ℤ → M DirectoryRegistry Bool
register p n = do old ← put p (registered_directory p n); pure true

unfoldable pub add_directory : JsPath → ℤ → M DirectoryRegistry Bool
unfolding is_deeper
add_directory p n =
    with_lock (do old ← get p; if is_deeper n old then register p n else pure false) false

unfoldable pub remove_directory : JsPath → M DirectoryRegistry (Unit {0})
remove_directory p = with_lock (do old ← remove p; pure tt) tt

unfoldable pub registered_loop : List RegisteredDirectory → Dict JsPath ℤ → Dict JsPath ℤ
registered_loop [] result = result
registered_loop (d ∷ ds) result = registered_loop ds (insert d.path d.max_depth result)

unfoldable pub registered : M DirectoryRegistry (Dict JsPath ℤ)
unfolding registered_loop
registered = with_lock (do ds ← values_of; pure (registered_loop ds [])) []

-- A `RegisteredDirectory` is not `AutoCloseable`.
unfoldable pub close : M DirectoryRegistry (Unit {0})
close = do closed ← clear (λ _. false); pure tt

-- ===== src/Registry/Depth.antt =====
-- `maxDepthFor` and the depths that the registered directories leave at a path.
use file_tree_views.Base.{◌≡◌, true, false, some, List, All, Any, arith, str_eq}
use file_tree_views.Base.Int.{ℤ, pos, ◌-ℤ◌, ◌≤ℤ◌, min_value, to_int32}
use file_tree_views.Base.Dict.{values}
use file_tree_views.Path.{NodePath, JsPath, starts_with}
use file_tree_views.Locks.Laws.{held, values_of_runs, with_lock_runs}
use file_tree_views.Registry.{
  RegisteredDirectory, DirectoryRegistry, depth_below, max_depth_loop, max_depth_for,
}

module _ (node : NodePath) where
  -- The depth that a directory leaves at a path.
  abbrev pub remaining : JsPath → RegisteredDirectory → ℤ
  remaining p d = to_int32 (d.max_depth -ℤ pos (depth_below node d.path p))

  -- A bound on what the directories above a path leave there.
  abbrev pub IsBound : JsPath → ℤ → List RegisteredDirectory → Type 0
  IsBound p z = All (λ d. starts_with p d.path ≡ true → remaining p d ≤ℤ z)

  abbrev pub IsAttained : JsPath → ℤ → List RegisteredDirectory → Type 0
  IsAttained p z = Any (λ d. (starts_with p d.path ≡ true) × (remaining p d ≡ z))

  pub max_depth_for_runs :
      (p : JsPath) (m : DirectoryRegistry)
      → m.guard.interrupted ≡ false
      → max_depth_for node p m ≡ some (max_depth_loop node p (values m.entries) min_value, m)
  unfolding max_depth_for
  max_depth_for_runs p m free =
      with_lock_runs _ _ _ m m free (ground (arith, values_of_runs (held m) free))

-- ===== src/Registry/Accept.antt =====
-- `accept` beside `maxDepthFor`.
use file_tree_views.Base.{
  ℕ, ◌≤◌, ◌≢◌, ==_refl, ==_ne, ◌≡◌, refl, ◌∙◌, true, false, ◌&&◌, ◌||◌, some, List, [], ◌∷◌, All,
  arith, str_eq, if◌then◌else◌, sym, ap,
}
use file_tree_views.Base.Int.{
  ℤ, pos, negsuc, ◌-ℤ◌, ◌+ℤ◌, eq_ℤ, ◌≤ℤ◌, leb_ℤ, min_value, max_value, to_int32, to_int32_fits,
}
use file_tree_views.Base.Dict.{Dict, values}
use file_tree_views.Path.{NodePath, JsPath, starts_with}
use file_tree_views.Path.Prefix.{starts_with_refl}
use file_tree_views.Locks.Laws.{held, iterator_runs, with_lock_runs}
use file_tree_views.Registry.Depth.{remaining, max_depth_for_runs}
use file_tree_views.Registry.{
  RegisteredDirectory, DirectoryRegistry, registered_directory, depth_below, better, max_depth_loop,
  max_depth_for, accepts, accept_entry, accept_loop, accept,
}

-- An entry as `addDirectory` makes it, for a depth that is an `Int`.
pub record IsEntry (e : JsPath × RegisteredDirectory) : Type 0 where
  pub keyed : e.1.path ≡ e.0
  pub built : e.1 ≡ registered_directory e.1.path e.1.max_depth
  pub upper : e.1.max_depth ≤ℤ max_value

abbrev pub IsValid : DirectoryRegistry → Type 0
IsValid m = All IsEntry m.entries

-- The depth is -1 or more, which `addDirectory` does not ensure.
abbrev pub ReachesSelf : RegisteredDirectory → Type 0
ReachesSelf d = negsuc 0 ≤ℤ d.max_depth

-- Registering a depth one higher and counting names comes to the same as subtracting them.
comp_lem :
    (z : ℤ) (n : ℕ)
    → negsuc 0 ≤ℤ z
    → z ≤ℤ max_value
    → n ≤ 2147483647
    → leb_ℤ (pos n) (if eq_ℤ z max_value then z else to_int32 (pos 1 +ℤ z))
      ≡ leb_ℤ (negsuc 0) (to_int32 (z -ℤ pos n))
comp_lem z n l u h = ground (arith, to_int32_fits (pos 1 +ℤ z), to_int32_fits (z -ℤ pos n))

comp-registered :
    (p : JsPath) (n : ℤ)
    → (registered_directory p n).comp_max_depth
      ≡ (if eq_ℤ n max_value then n else to_int32 (pos 1 +ℤ n))
unfolding registered_directory
comp-registered p n = refl

accepts_self :
    (node : NodePath) (d : RegisteredDirectory) (p : JsPath) → p ≡ d.path → accepts node d p ≡ true
unfolding accepts
accepts_self node d p same = rw (same, starts_with_refl d.path, ==_refl d.path)

depth_below_self : (node : NodePath) (d p : JsPath) → p ≡ d → depth_below node d p ≡ 0
unfolding depth_below
depth_below_self node d p same = rw (same, ==_refl d)

accepts_other :
    (node : NodePath) (d : RegisteredDirectory) (p : JsPath)
    → p ≢ d.path
    → accepts node d p
      ≡ (starts_with p d.path && leb_ℤ (pos (depth_below node d.path p)) d.comp_max_depth)
unfolding accepts depth_below
accepts_other node d p other = rw (==_ne p d.path other, ==_ne d.path p (λ e. other (sym e)))

module _ (node : NodePath) (p : JsPath) where
  -- The names that lead from each registered directory to the path fit an `Int`.
  abbrev pub AreShort : List RegisteredDirectory → Type 0
  AreShort = All (λ d. depth_below node d.path p ≤ 2147483647)

  -- What one directory accepts, in terms of the depth that it leaves.
  accepts-remaining :
      (w : JsPath) (d : RegisteredDirectory)
      → depth_below node d.path p ≤ 2147483647
      → IsEntry (w, d)
      → ReachesSelf d
      → accepts node d p ≡ (starts_with p d.path && leb_ℤ (negsuc 0) (remaining node p d))
  accepts-remaining w d short v low =
      let comp =
        ap (λ (r : RegisteredDirectory). r.comp_max_depth) v.built
        ∙ comp-registered d.path d.max_depth in
      let by_depth = comp_lem d.max_depth (depth_below node d.path p) low v.upper short in
      let fits = to_int32_fits (d.max_depth -ℤ pos 0) in
      elim (str_eq.dec p d.path) [
        | yes same ↦
            rw (accepts_self node d p same, depth_below_self node d.path p same, same)
              (ground (arith, starts_with_refl d.path, fits))
        | no other ↦ rw (accepts_other node d p other, comp, by_depth)
      ]

  accept_entry-remaining :
      (w : JsPath) (d : RegisteredDirectory)
      → depth_below node d.path p ≤ 2147483647
      → IsEntry (w, d)
      → ReachesSelf d
      → accept_entry node p false w d
        ≡ (starts_with p d.path && leb_ℤ (negsuc 0) (remaining node p d))
  unfolding accept_entry
  accept_entry-remaining w d short v low =
      ground (arith, v.keyed, accepts-remaining w d short v low)

  better_enough :
      (d : RegisteredDirectory) (best : ℤ)
      → leb_ℤ (negsuc 0) (better node p d best)
        ≡ (leb_ℤ (negsuc 0) best || starts_with p d.path && leb_ℤ (negsuc 0) (remaining node p d))
  unfolding better
  better_enough d best = ground arith

  loop_enough :
      (es : Dict JsPath RegisteredDirectory) (best : ℤ)
      → AreShort (values es)
      → All IsEntry es
      → All ReachesSelf (values es)
      → leb_ℤ (negsuc 0) (max_depth_loop node p (values es) best)
        ≡ (leb_ℤ (negsuc 0) best || accept_loop node p false es)
  unfolding max_depth_loop accept_loop values
  loop_enough [] best short v low = ground arith
  loop_enough ((w, d) ∷ es) best (short, shorts) (v, vs) (low, lows) = ground (
    arith,
    loop_enough es (better node p d best) shorts vs lows,
    better_enough d best,
    accept_entry-remaining w d short v low,
  )

pub accept_runs :
    (node : NodePath) (p : JsPath) (m : DirectoryRegistry)
    → m.guard.interrupted ≡ false
    → accept node p m ≡ some (accept_loop node p false m.entries, m)
unfolding accept
accept_runs node p m free =
    with_lock_runs _ _ _ m m free (ground (arith, iterator_runs (held m) free))

-- In an uninterrupted thread, with entries as `addDirectory` makes them, registered to depths of -1 or
-- more, and at a path to which no more names lead from each of them than fit an `Int`: `accept`
-- answers whether the depth that `maxDepthFor` finds is at least -1. Both return, and neither changes
-- the registry.
pub accept-max_depth_for :
    (node : NodePath) (p : JsPath) (m : DirectoryRegistry)
    → AreShort node p (values m.entries)
    → m.guard.interrupted ≡ false
    → IsValid m
    → All ReachesSelf (values m.entries)
    → (z : ℤ) × (max_depth_for node p m ≡ some (z, m))
      × (accept node p m ≡ some (leb_ℤ (negsuc 0) z, m))
accept-max_depth_for node p m short free v low = (
  _,
  max_depth_for_runs node p m free,
  accept_runs node p m free ∙ rw (loop_enough node p m.entries min_value short v low),
)

-- ===== src/Registry/Update.antt =====
-- What `addDirectory`, `removeDirectory` and `registered` do to the registered depths.
use file_tree_views.Base.{
  Bool-cases, inl, inr, subst, ◌≡◌, refl, ◌∙◌, Bool, true, false, Option, none, some, [], ◌∷◌, All,
  arith, str_eq, ◌==◌, if◌then◌else◌,
}
use file_tree_views.Base.Int.{ℤ, ◌≤ℤ◌, ltb_ℤ, max_value}
use file_tree_views.Base.Dict.{
  Dict, lookup, insert, erase, values, lookup-insert, lookup-erase, lookup-nil, NodupKeys,
  insert-NodupKeys,
}
use file_tree_views.Path.{JsPath}
use file_tree_views.Locks.Laws.{
  held, get_runs, put_runs, remove_runs, values_of_runs, with_lock_runs,
}
use file_tree_views.Registry.{
  RegisteredDirectory, DirectoryRegistry, registered_directory, is_deeper, add_directory,
  remove_directory, registered, registered_loop,
}
use file_tree_views.Registry.Accept.{IsEntry, IsValid}

-- What the registry holds for a path: its depth, if it has one.
pub depth_at : JsPath → DirectoryRegistry → Option ℤ
depth_at p m = elim (lookup p m.entries) [ none ↦ none | some d ↦ some d.max_depth ]

-- The entries after `addDirectory`.
added : JsPath → ℤ → DirectoryRegistry → DirectoryRegistry
added p n m =
    if is_deeper n (lookup p m.entries)
    then record m { entries = insert p (registered_directory p n) m.entries }
    else m

add_directory_runs :
    (p : JsPath) (n : ℤ) (m : DirectoryRegistry)
    → m.guard.interrupted ≡ false
    → add_directory p n m ≡ some (is_deeper n (lookup p m.entries), added p n m)
unfolding add_directory added
add_directory_runs p n m free =
    with_lock_runs _ _ _ m _ free (
      ground (arith, get_runs (held m) free p, put_runs (held m) free p (registered_directory p n)))

-- The deeper of a depth and what was registered before.
pub deepest : ℤ → Option ℤ → ℤ
deepest n none = n
deepest n (some z) = if ltb_ℤ z n then n else z

pub exceeds : ℤ → Option ℤ → Bool
exceeds n none = true
exceeds n (some z) = ltb_ℤ z n

-- In an uninterrupted thread `addDirectory` answers whether the path had no depth, or a smaller
-- one; afterwards the path has the greater of the two depths, and every other path has the depth
-- that it had.
pub add_directory-depth_at :
    (p : JsPath) (n : ℤ) (m : DirectoryRegistry)
    → m.guard.interrupted ≡ false
    → (r : DirectoryRegistry) × (add_directory p n m ≡ some (exceeds n (depth_at p m), r))
      × ((q : JsPath)
          → depth_at q r ≡ (if q == p then some (deepest n (depth_at p m)) else depth_at q m))
unfolding depth_at added registered_directory is_deeper deepest exceeds
add_directory-depth_at p n m free = (
  added p n m,
  add_directory_runs p n m free ∙ ground arith,
  λ q. ground (arith, lookup-insert q p (registered_directory p n) m.entries),
)

insert-IsEntry :
    (p : JsPath) (d : RegisteredDirectory) (es : Dict JsPath RegisteredDirectory)
    → IsEntry (p, d)
    → All IsEntry es
    → All IsEntry (insert p d es)
unfolding insert
insert-IsEntry p d [] v vs = (v, tt)
insert-IsEntry p d ((q, c) ∷ es) v (w, ws) = ground (arith, insert-IsEntry p d es v ws)

registered_directory-IsEntry :
    (p : JsPath) (n : ℤ) → n ≤ℤ max_value → IsEntry (p, registered_directory p n)
unfolding registered_directory
registered_directory-IsEntry p n u = record { keyed = refl; built = refl; upper = u }

added-IsValid :
    (p : JsPath) (n : ℤ) (m : DirectoryRegistry)
    → n ≤ℤ max_value
    → IsValid m
    → NodupKeys m.entries
    → IsValid (added p n m) × NodupKeys (added p n m).entries
unfolding added
added-IsValid p n m u v nodup = elim (Bool-cases (is_deeper n (lookup p m.entries))) [
  | inl deep ↦ rw deep (
    insert-IsEntry p (registered_directory p n) m.entries (registered_directory-IsEntry p n u) v,
    insert-NodupKeys p (registered_directory p n) m.entries nodup,
  )
  | inr shallow ↦ rw shallow (v, nodup)
]

-- Registering a depth from -1 on keeps the registry valid, and its paths distinct.
pub add_directory-IsValid :
    (p : JsPath) (n : ℤ) (m r : DirectoryRegistry) (b : Bool)
    → m.guard.interrupted ≡ false
    → n ≤ℤ max_value
    → IsValid m
    → NodupKeys m.entries
    → add_directory p n m ≡ some (b, r)
    → IsValid r × NodupKeys r.entries
unfolding added
add_directory-IsValid p n m r b free u v nodup e =
    subst (λ t. IsValid t × NodupKeys t.entries) same (added-IsValid p n m u v nodup)
  where
    same : added p n m ≡ r
    same = ground (arith, add_directory_runs p n m free)

pub remove_directory_runs :
    (p : JsPath) (m : DirectoryRegistry)
    → m.guard.interrupted ≡ false
    → remove_directory p m ≡ some (tt, record m { entries = erase p m.entries })
unfolding remove_directory
remove_directory_runs p m free =
    with_lock_runs _ _ _ m _ free (ground (arith, remove_runs (held m) free p))

-- In an uninterrupted thread `removeDirectory` forgets the depth of its path and no other.
pub remove_directory-depth_at :
    (p : JsPath) (m : DirectoryRegistry)
    → m.guard.interrupted ≡ false
    → (r : DirectoryRegistry) × (remove_directory p m ≡ some (tt, r))
      × ((q : JsPath) → depth_at q r ≡ (if q == p then none else depth_at q m))
unfolding depth_at
remove_directory-depth_at p m free = (
  record m { entries = erase p m.entries },
  remove_directory_runs p m free,
  λ q. ground (arith, lookup-erase q p m.entries),
)

-- `registered()` as a map.
registered_loop-lookup :
    (q : JsPath) (es : Dict JsPath RegisteredDirectory) (acc : Dict JsPath ℤ)
    → All IsEntry es
    → NodupKeys es
    → lookup q (registered_loop (values es) acc)
      ≡ elim (lookup q es) [ none ↦ lookup q acc | some d ↦ some d.max_depth ]
unfolding registered_loop values lookup
registered_loop-lookup q [] acc v nodup = refl
registered_loop-lookup q ((w, d) ∷ es) acc (v, vs) (fresh, nodup) = ground (
  arith,
  registered_loop-lookup q es (insert d.path d.max_depth acc) vs nodup,
  lookup-insert q d.path d.max_depth acc,
  v.keyed,
)

pub registered_runs :
    (m : DirectoryRegistry)
    → m.guard.interrupted ≡ false
    → registered m ≡ some (registered_loop (values m.entries) [], m)
unfolding registered
registered_runs m free =
    with_lock_runs _ _ _ m m free (ground (arith, values_of_runs (held m) free))

-- In an uninterrupted thread `registered` returns a map of just the depths that the registry
-- holds, and leaves the registry alone.
pub registered-depth_at :
    (m : DirectoryRegistry)
    → m.guard.interrupted ≡ false
    → IsValid m
    → NodupKeys m.entries
    → (d : Dict JsPath ℤ) × (registered m ≡ some (d, m))
      × ((q : JsPath) → lookup q d ≡ depth_at q m)
unfolding depth_at
registered-depth_at m free v nodup = (
  _,
  registered_runs m free,
  λ q.
      ground
        (arith, registered_loop-lookup q m.entries [] v nodup, lookup-nil {K = JsPath} {V = ℤ} q),
)

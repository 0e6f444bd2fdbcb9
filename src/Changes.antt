-- ===== src/Changes.antt =====
-- com/swoval/files/MapOps.scala and FileTreeViews.Updates, as they stand in files/js/npm/files.js
-- (`MapOps$`, `FileTreeViews$Updates`). The calls of a `CacheObserver` are the list of changes that
-- it is told, in their order.
pub mod Replay
pub mod Delivery
use file_tree_views.Base.{
  Bool, true, false, Option, none, some, List, [], ◌∷◌, ◌++◌, map, Eq, str_eq, if◌then◌else◌,
}
use file_tree_views.Base.Dict.{Dict, lookup, insert}
use file_tree_views.Path.{NodePath, JsPath}
use file_tree_views.Entry.{Entry, path_of, set_gone}

-- `onCreate(new)`, `onUpdate(old, new)` and `onDelete(old)` of a `CacheObserver`.
pub data Change (T : Type 0) : Type 0 where
  create : Entry T → Change T
  update : Entry T → Entry T → Change T
  delete : Entry T → Change T

module _ {T : Type 0} where
  abbrev pub arrival : Option (Entry T) → Entry T → Change T
  arrival none e = create e
  arrival (some old) e = update old e

  abbrev pub departure : Option (Entry T) → Entry T → List (Change T) → List (Change T)
  departure none e rest = delete e ∷ rest
  departure (some new) e rest = rest

module _ {K T : Type 0} ⦃k : Eq K⦄ where
  -- The loop over the new entries.
  unfoldable pub arrivals : Dict K (Entry T) → Dict K (Entry T) → List (Change T)
  arrivals old [] = []
  arrivals old ((p, e) ∷ new) = arrival (lookup p old) e ∷ arrivals old new

  -- The loop over the old entries.
  unfoldable pub departures : Dict K (Entry T) → Dict K (Entry T) → List (Change T)
  departures new [] = []
  departures new ((p, e) ∷ old) = departure (lookup p new) e (departures new old)

  -- `diffDirectoryEntries(oldMap, newMap, cacheObserver)`
  unfoldable pub diff_maps : Dict K (Entry T) → Dict K (Entry T) → List (Change T)
  unfolding arrivals departures
  diff_maps old new = arrivals old new ++ departures new old

module _ {T : Type 0} where
  -- The map of a list of entries by their paths, `onto` what is there.
  unfoldable pub by_path : List (Entry T) → Dict JsPath (Entry T) → Dict JsPath (Entry T)
  by_path [] onto = onto
  by_path (e ∷ es) onto = by_path es (insert (path_of e) e onto)

  -- `diffDirectoryEntries(oldEntries, newEntries, cacheObserver)`
  unfoldable pub diff_entries : List (Entry T) → List (Entry T) → List (Change T)
  unfolding by_path diff_maps
  diff_entries old new = diff_maps (by_path old []) (by_path new [])

-- `FileTreeViews.Updates`
pub record Updates (T : Type 0) : Type 0 where
  pub creations : List (Entry T)
  pub updates : List (Entry T × Entry T)
  pub deletions : List (Entry T)

module _ {T : Type 0} where
  abbrev pub no_updates : Updates T
  no_updates = record { creations = []; updates = []; deletions = [] }

  unfoldable pub on_create : Updates T → Entry T → Updates T
  on_create u e = record u { creations = u.creations ++ e ∷ [] }

  unfoldable pub on_update : Updates T → Entry T → Entry T → Updates T
  on_update u old new = record u { updates = u.updates ++ (old, new) ∷ [] }

  unfoldable pub on_delete : Updates T → Entry T → Updates T
  on_delete u e = record u { deletions = u.deletions ++ e ∷ [] }

  -- `Updates` as the observer that is told a change.
  unfoldable pub tell : Updates T → Change T → Updates T
  unfolding on_create on_update on_delete
  tell u (create e) = on_create u e
  tell u (update old new) = on_update u old new
  tell u (delete e) = on_delete u e

  unfoldable pub tell_all : Updates T → List (Change T) → Updates T
  unfolding tell
  tell_all u [] = u
  tell_all u (c ∷ cs) = tell_all (tell u c) cs

  -- `Updates.observe(cacheObserver)`
  unfoldable pub observe : NodePath → Updates T → List (Change T)
  observe node u =
      map create u.creations
      ++ (map (λ (old, new). update old new) u.updates
          ++ map (λ e. delete (set_gone node e)) u.deletions)

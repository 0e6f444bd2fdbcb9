-- ===== src/PollingWatcher.antt =====
-- com/swoval/files/PollingPathWatcher.scala and PeriodicTask.scala, as they stand in
-- files/js/npm/files.js (`PollingPathWatcher` and its inner classes): a watcher that lists the
-- registered directories over and over. An entry's value is the time of its last change.
-- The timer is outside: `run` is one of its ticks.
pub mod Reported
pub mod Quiet
pub mod Unwatched
pub mod PeriodicTask
use file_tree_views.Base.{
  ℕ, Bool, true, false, not, ◌&&◌, Option, none, some, List, [], ◌∷◌, ◌++◌, str_eq, ◌==◌, nat_eq,
  if◌then◌else◌,
}
use file_tree_views.Base.Int.{ℤ, negsuc}
use file_tree_views.Base.Dict.{Dict, insert}
use file_tree_views.Either.{Either, left, right, IoException, not_directory, all_pass}
use file_tree_views.Path.{JsPath, to_absolute}
use file_tree_views.TypedPath.{TypedPath}
use file_tree_views.Entry.{Entry, valid, invalid, typed, get_entry}
use file_tree_views.Event.{Kind, create_kind, delete_kind, modify_kind, Event}
use file_tree_views.Changes.{Change, create, update, delete, diff_maps, by_path}
use file_tree_views.Registry
use file_tree_views.Registry.{DirectoryRegistry, registered, add_directory, remove_directory}
use file_tree_views.CachedDirectory.Tree.{Setting, Directory, dir_path, new_directory}
use file_tree_views.CachedDirectory.Finding.{list_entries}
use file_tree_views.CachedDirectory.Scan.{Scanned, filled, failed, exhausted, init}

abbrev pub Entries : Type 0
Entries = Dict JsPath (Entry ℕ)

pub record Poller : Type 0 where
  pub is_closed : Bool
  pub registry : DirectoryRegistry
  pub old_entries : Entries

-- `oldEntry.getValue != newEntry.getValue`; two exceptions are equal only if they are one object,
-- and each conversion makes a new one.
abbrev pub same_value : Entry ℕ → Entry ℕ → Bool
same_value (valid t m) (valid s n) = nat_eq m n
same_value d e = false

-- The `CacheObserver` of `PollingRunnable`: the events that a change makes.
unfoldable pub poll_event : Change ℕ → List Event
poll_event (create e) = record { typed_path = typed e; kind = create_kind } ∷ []
poll_event (update old new) =
    if same_value old new then [] else record { typed_path = typed new; kind = modify_kind } ∷ []
poll_event (delete e) = record { typed_path = typed e; kind = delete_kind } ∷ []

unfoldable pub poll_events : List (Change ℕ) → List Event
unfolding poll_event
poll_events [] = []
poll_events (c ∷ cs) = poll_event c ++ poll_events cs

-- `addAll(map, list)`
abbrev pub add_all : Entries → List (Entry ℕ) → Entries
add_all map list = by_path list map

module _ (c : Setting ℕ) (fuel : ℕ) where
  open c use {node, converter, typed_path_at}

  -- `if (pathEntry.size == 1) newEntries.add(pathEntry.get(0))`
  abbrev own_entry : List (Entry ℕ) → List (Entry ℕ)
  own_entry (e ∷ []) = e ∷ []
  own_entry es = []

  abbrev viewed : JsPath → ℤ → Directory ℕ → List (Entry ℕ)
  viewed p n d =
      list_entries node (dir_path d) n all_pass d
      ++ own_entry (list_entries node (dir_path d) (negsuc 0) all_pass d)

  abbrev scanned_entries : JsPath → ℤ → Scanned ℕ → Option (List (Entry ℕ))
  scanned_entries p n (filled d) = some (viewed p n d)
  scanned_entries p n (failed (not_directory m) d) =
      some (get_entry (typed_path_at p) converter (typed_path_at p) ∷ [])
  scanned_entries p n (failed x d) = some []
  scanned_entries p n exhausted = none

  -- `getEntries(path, maxDepth)`; `none` when there is no fuel left.
  unfoldable pub get_entries : JsPath → ℤ → Option (List (Entry ℕ))
  get_entries p n = scanned_entries p n (init c fuel (new_directory c (typed_path_at p) n))

  abbrev pub and_all : Option Entries → Option (List (Entry ℕ)) → Option Entries
  and_all none es = none
  and_all (some map) none = none
  and_all (some map) (some es) = some (add_all map es)

  -- The loop of `getEntries()` over the registered directories.
  unfoldable pub collect : Dict JsPath ℤ → Option Entries → Option Entries
  unfolding get_entries
  collect [] map = map
  collect ((p, n) ∷ ds) map = collect ds (and_all map (get_entries p n))

  abbrev pub with_registry :
      DirectoryRegistry → Option Entries → Option (Entries × DirectoryRegistry)
  with_registry r none = none
  with_registry r (some map) = some (map, r)

  abbrev pub collected :
      Option (Dict JsPath ℤ × DirectoryRegistry) → Option (Entries × DirectoryRegistry)
  collected none = none
  collected (some (ds, r)) = with_registry r (collect ds (some []))

  -- `getEntries()`
  unfoldable pub get_all : DirectoryRegistry → Option (Entries × DirectoryRegistry)
  unfolding collect
  get_all r = collected (registered r)

  abbrev pub polled : Poller → Option (Entries × DirectoryRegistry) → Option (List Event × Poller)
  polled s none = none
  polled s (some (new, r)) =
      some (poll_events (diff_maps s.old_entries new), record s { registry = r; old_entries = new })

  -- `PollingRunnable.run()`
  unfoldable pub run : Poller → Option (List Event × Poller)
  unfolding get_all poll_events
  run s = polled s (get_all s.registry)

  abbrev added :
      Poller → List (Entry ℕ) → Option (Bool × DirectoryRegistry) → Option (Bool × Poller)
  added s es none = none
  added s es (some (b, r)) =
      some (b, record s { registry = r; old_entries = add_all s.old_entries es })

  -- `register(path, maxDepth)`, whose result is always a right value.
  unfoldable pub register : JsPath → ℤ → Poller → Option (Bool × Poller)
  unfolding get_entries
  register p n s = elim (get_entries (to_absolute node p) n) [
    | none ↦ none
    | some es ↦ added s es (add_directory (to_absolute node p) n s.registry)
  ]

  abbrev pub removed : Poller → Option (Unit {0} × DirectoryRegistry) → Option Poller
  removed s none = none
  removed s (some (_, r)) = some (record s { registry = r })

  -- `unregister(path)`
  unfoldable pub unregister : JsPath → Poller → Option Poller
  unregister p s = removed s (remove_directory (to_absolute node p) s.registry)

  abbrev closed_registry : Poller → Option (Unit {0} × DirectoryRegistry) → Option Poller
  closed_registry s none = none
  closed_registry s (some (_, r)) = some (record s { is_closed = true; registry = r })

  -- `close()`; the timer stops.
  unfoldable pub close : Poller → Option Poller
  close s = if s.is_closed then some s else closed_registry s (Registry.close s.registry)

-- ===== src/PollingWatcher/Unwatched.antt =====
-- What the runs report after a directory is no longer watched.
use file_tree_views.Base.{ℕ, ◌≡◌, refl, ◌∙◌, ap, false, some, [], ◌∷◌, map, str_eq, ==_refl}
use file_tree_views.Base.Dict.{Dict, lookup, erase, values}
use file_tree_views.Path.{JsPath, to_absolute}
use file_tree_views.Entry.{Entry, typed}
use file_tree_views.Event.{Event, delete_kind}
use file_tree_views.Changes.{arrivals, departures, diff_maps}
use file_tree_views.Registry.{DirectoryRegistry, RegisteredDirectory, registered, registered_loop}
use file_tree_views.Registry.Update.{remove_directory_runs, registered_runs}
use file_tree_views.CachedDirectory.Tree.{Setting}
use file_tree_views.PollingWatcher.{
  Poller, Entries, poll_event, poll_events, collect, collected, get_all, run, polled, unregister,
  removed,
}

abbrev pub deleted : Entry ℕ → Event
deleted e = record { typed_path = typed e; kind = delete_kind }

all_gone : (d : Entries) → poll_events (diff_maps d []) ≡ map deleted (values d)
unfolding diff_maps arrivals departures poll_events poll_event values lookup
all_gone [] = refl
all_gone ((p, e) ∷ d) = ap (λ es. deleted e ∷ es) (all_gone d)

erase_last :
    (q : JsPath) (d : RegisteredDirectory) (es : Dict JsPath RegisteredDirectory)
    → es ≡ (q, d) ∷ []
    → erase q es ≡ []
unfolding erase
erase_last q d es one = rw (one, ==_refl q) refl

registered_none :
    (r : DirectoryRegistry)
    → r.guard.interrupted ≡ false
    → r.entries ≡ []
    → registered r ≡ some ([], r)
unfolding registered_loop values
registered_none r free none_left =
    registered_runs r free ∙ ap (λ es. some (registered_loop (values es) [], r)) none_left

-- In an uninterrupted thread, unregistering the only watched directory ends well, and the next run
-- reports every path that the last one had found as deleted, although nothing was asked of the file
-- system; after it nothing is remembered.
pub unregister-run :
    (c : Setting ℕ) (fuel : ℕ) (p : JsPath) (d : RegisteredDirectory) (s : Poller)
    → s.registry.guard.interrupted ≡ false
    → s.registry.entries ≡ (to_absolute c.node p, d) ∷ []
    → (t : Poller) × (unregister c fuel p s ≡ some t)
      × (run c fuel t ≡ some (map deleted (values s.old_entries), record t { old_entries = [] }))
unfolding run get_all unregister collect
unregister-run c fuel p d s free one =
    let q = to_absolute c.node p in
    let none_left = erase_last q d s.registry.entries one in
    let r = record s.registry { entries = erase q s.registry.entries } in
    (
      record s { registry = r },
      ap (removed c fuel s) (remove_directory_runs q s.registry free),
      ap (λ o. polled c fuel (record s { registry = r }) (collected c fuel o))
            (registered_none r free none_left)
          ∙ ap (λ es. some (es, record s { registry = r; old_entries = [] }))
              (all_gone s.old_entries),
    )

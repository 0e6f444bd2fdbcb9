-- ===== src/Tests/Polling.antt =====
-- Examples of the theorems on the polling watcher.
use file_tree_views.Base.{ℕ, ◌≡◌, refl, false, some, List, [], ◌∷◌, map, str_eq}
use file_tree_views.Base.Int.{pos}
use file_tree_views.Base.Dict.{lookup, values, insert, NodupKeys}
use file_tree_views.Path.{JsPath}
use file_tree_views.Entry.{Entry, valid, get_entry}
use file_tree_views.Either.{left, not_directory}
use file_tree_views.Locks.{with_lock, try_lock, lock, release, unlock, values_of}
use file_tree_views.CachedDirectory.Tree.{Setting, new_directory, is_loop}
use file_tree_views.CachedDirectory.Scan.{init}
use file_tree_views.Event.{Event}
use file_tree_views.Changes.{diff_maps, by_path}
use file_tree_views.Registry.{DirectoryRegistry, registered_directory, registered, registered_loop}
use file_tree_views.PollingWatcher.{
  Poller, Entries, get_all, poll_events, collect, get_entries, run, unregister,
}
use file_tree_views.PollingWatcher.Reported.{beliefs, is_some, beliefs-poll_events}
use file_tree_views.PollingWatcher.Quiet.{run-run}
use file_tree_views.PollingWatcher.Unwatched.{unregister-run, deleted}
use file_tree_views.Tests.{a_path, b_path, c_path}
use file_tree_views.Tests.Caching.{file_at, on_disk}

abbrev entry_at : JsPath → ℕ → Entry ℕ
entry_at p n = valid (file_at p) n

-- `/a/b` goes, `/a` changes, `/a/c` comes.
abbrev old : Entries
old = (b_path, entry_at b_path 3) ∷ (a_path, entry_at a_path 1) ∷ []

abbrev new : Entries
new = (a_path, entry_at a_path 2) ∷ (c_path, entry_at c_path 4) ∷ []

new_distinct : NodupKeys new
unfolding lookup str_eq
new_distinct = (refl, (refl, tt))

beliefs-poll_events_example :
    beliefs b_path (is_some (lookup b_path old)) (poll_events (diff_maps old new))
    ≡ is_some (lookup b_path new)
beliefs-poll_events_example =
    beliefs-poll_events b_path old new (refl, (refl, tt)) (refl, (refl, tt)) new_distinct

abbrev watch_a : DirectoryRegistry
watch_a = record {
  guard = record { holds = 0; interrupted = false };
  entries = (a_path, registered_directory a_path (pos 0)) ∷ [];
}

abbrev poller : Poller
poller = record { is_closed = false; registry = watch_a; old_entries = old }

unregister-run_example :
    (t : Poller) × (unregister on_disk 2 a_path poller ≡ some t)
    × (run on_disk 2 t ≡ some (map deleted (values old), record t { old_entries = [] }))
unfolding file_tree_views.Path.to_absolute
unregister-run_example =
    unregister-run on_disk 2 a_path (registered_directory a_path (pos 0)) poller refl refl

-- The path that is watched is a file.
abbrev on_file : Setting ℕ
on_file = record on_disk { view = λ p. left (not_directory p) }

abbrev seen : Entries
seen = (a_path, entry_at a_path 9) ∷ []

polled_a : get_all on_file 2 watch_a ≡ some (seen, watch_a)
unfolding get_all registered with_lock try_lock lock release unlock values_of registered_loop values
    insert collect get_entries init new_directory get_entry by_path registered_directory str_eq
    is_loop
polled_a = refl

run-run_example :
    (es : List Event) × (t : Poller) × (run on_file 2 poller ≡ some (es, t))
    × (run on_file 2 t ≡ some ([], t))
run-run_example = run-run on_file 2 poller seen watch_a polled_a polled_a (tt, tt)

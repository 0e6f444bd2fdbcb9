-- ===== src/Tests/Watchers.antt =====
-- Examples of the theorems on the watchers of paths.
use file_tree_views.Base.{
  ℕ, ◌≡◌, refl, Bool, true, false, none, some, List, [], ◌∷◌, str_eq, ◌==◌, ==_refl, ==→≡,
  if◌then◌else◌, arith,
}
use file_tree_views.Base.Int.{ℤ, pos}
use file_tree_views.Base.Dict.{lookup, NodupKeys}
use file_tree_views.Either.{right}
use file_tree_views.Path.{JsPath, starts_with, to_absolute}
use file_tree_views.Event.{Event, create_kind, delete_kind, modify_kind}
use file_tree_views.Registry.{registered_directory}
use file_tree_views.NioPathWatcher.Service
use file_tree_views.NioPathWatcher.Service.{
  Service, Disk, Watched, invalid, monitor, is_opened, close_watched, on_error,
}
use file_tree_views.NioPathWatcher.Closed.{
  IsTracked, close-none_opened, register-on_error-IsTracked,
}
use file_tree_views.NioPathWatcher.Callbacks.{run_callbacks}
use file_tree_views.NioPathWatcher.Once.{kinds, lookup-run_callbacks}
use file_tree_views.SymlinkFollowing
use file_tree_views.SymlinkFollowing.{Outside, next}
use file_tree_views.SymlinkFollowing.Traced.{on_next-on_next}
use file_tree_views.SymlinkWatcher.{target_of}
use file_tree_views.ApplePathWatcher.Streams
use file_tree_views.ApplePathWatcher.Streams.{Native, Watcher, find, illegal_state}
use file_tree_views.ApplePathWatcher.Apart.{IsSound, IsApart, below, register-IsSound}
use file_tree_views.ApplePathWatcher.Dropped.{register-dropped}
use file_tree_views.Tests.{posix, a_path, b_path, c_path}
use file_tree_views.Tests.Caching.{file_at, directory_at}
use file_tree_views.Tests.Linking.{b_to_c, no_links, no_links-IsUsed, no_loop}

abbrev service : Service
service = record {
  next = 2;
  opened = 1 ∷ [];
  monitors = (a_path, monitor 1 a_path) ∷ (b_path, invalid) ∷ [];
}

service-IsTracked : IsTracked service
unfolding lookup str_eq
service-IsTracked i e = (a_path, same_number i e)
  where
    same_number :
        (i : ℕ) → is_opened i (1 ∷ []) ≡ true → some (monitor 1 a_path) ≡ some (monitor i a_path)
    same_number i e = ground arith

abbrev disk : Disk
disk = record {
  to_real_path = λ p. right p;
  attributes = λ p. right (true, false);
  file_exists = λ p. true;
  typed_path_at = directory_at;
  watch = λ p. none;
}

close-none_opened_example : is_opened 1 (Service.close service).opened ≡ false
close-none_opened_example = close-none_opened service service-IsTracked 1

a_monitored : lookup a_path service.monitors ≡ some (monitor 1 a_path)
unfolding lookup str_eq
a_monitored = refl

register-on_error-IsTracked_example :
    IsTracked (Service.register disk c_path service).1
    × IsTracked (on_error disk 1 a_path service).1
    × IsTracked (close_watched (monitor 1 a_path) service)
register-on_error-IsTracked_example =
    register-on_error-IsTracked disk c_path a_path 1 service service-IsTracked a_monitored

-- Two events about `/a/b` and one about `/a/c`, which is not accepted.
abbrev three_events : List Event
three_events =
    record { typed_path = file_at b_path; kind = create_kind }
    ∷ record { typed_path = file_at c_path; kind = modify_kind }
    ∷ record { typed_path = file_at b_path; kind = delete_kind }
    ∷ []

abbrev only_b : JsPath → Bool
only_b p = p == b_path

lookup-run_callbacks_example :
    (lookup b_path (kinds (run_callbacks only_b file_at three_events))
      ≡ (if only_b b_path then lookup b_path (kinds three_events) else none))
    × NodupKeys (kinds (run_callbacks only_b file_at three_events))
lookup-run_callbacks_example =
    lookup-run_callbacks only_b file_at b_path three_events (refl, (refl, (refl, tt)))

abbrev outside : Outside
outside = record {
  node = posix;
  register_inner = λ p n. right false;
  list_at =
      λ p n. right (file_at c_path ∷ record (file_at b_path) { is_symbolic_link = true } ∷ []);
  calls = b_to_c;
}

abbrev link_created : Event
link_created = record {
  typed_path = record (file_at b_path) { is_symbolic_link = true };
  kind = create_kind;
}

abbrev link_deleted : Event
link_deleted = record {
  typed_path = record (file_at b_path) { exists = false };
  kind = delete_kind;
}

on_next-on_next_example :
    ((SymlinkFollowing.on_next outside [] link_created no_links).0 ≡ next link_created ∷ [])
    × (target_of b_path (SymlinkFollowing.on_next outside [] link_created no_links).1.targets
        ≡ some c_path)
    × ((SymlinkFollowing.on_next outside [] link_deleted
          (SymlinkFollowing.on_next outside [] link_created no_links).1).0
        ≡ next link_deleted ∷ [])
    × (lookup c_path
          (SymlinkFollowing.on_next outside [] link_deleted
            (SymlinkFollowing.on_next outside [] link_created no_links).1).1.targets
        ≡ lookup c_path no_links.targets)
on_next-on_next_example =
    on_next-on_next outside [] link_created link_deleted c_path c_path no_links refl refl refl refl
      refl refl refl no_loop refl tt no_links-IsUsed

abbrev native : Native
native = record {
  node = posix;
  typed_path_at = file_at;
  create_stream = λ p. some (pos 7);
  is_managed = false;
}

-- `/a/b` is watched, with a stream.
abbrev b_streamed : Watcher
b_streamed = record {
  is_closed = false;
  watched = (b_path, registered_directory b_path (pos 9)) ∷ [];
  streams = (b_path, pos 3) ∷ [];
  monitor_closed = false;
  stopped = [];
}

if_here : (b : Bool) (h : ℤ) → (if b then some (pos 3) else none) ≡ some h → b ≡ true
if_here true h e = refl
if_here false h e = cc

same_path : (k l : JsPath) → k ≡ b_path → l ≡ b_path → (k == l) ≡ true
same_path k l e f = rw (e, f) (==_refl b_path)

b_alone : IsApart b_streamed.streams
unfolding lookup
b_alone k l h i e f under =
    same_path k l (==→≡ k b_path (if_here (k == b_path) h e))
      (==→≡ l b_path (if_here (l == b_path) i f))

b_absolute : to_absolute posix b_path ≡ b_path
unfolding to_absolute
b_absolute = refl

twice : to_absolute posix (to_absolute posix a_path) ≡ to_absolute posix a_path
unfolding to_absolute
twice = refl

register-IsSound_example : IsSound native (Streams.register native a_path (pos 0) b_streamed).1
register-IsSound_example =
    register-IsSound native a_path (pos 0) b_streamed twice refl (b_alone, (b_absolute, tt))

none_above : find (to_absolute posix a_path) b_streamed.streams ≡ none
unfolding find to_absolute starts_with str_eq
none_above = refl

b_there : lookup b_path b_streamed.streams ≡ some (pos 3)
unfolding lookup str_eq
b_there = refl

b_under : below (to_absolute posix a_path) b_path ≡ true
unfolding to_absolute starts_with str_eq
b_under = refl

register-dropped_example :
    lookup b_path (Streams.register native a_path (pos 0) b_streamed).1.watched ≡ none
register-dropped_example =
    register-dropped native refl a_path b_path (pos 0) (pos 3) (pos 7) b_streamed refl refl refl
      (b_absolute, tt) none_above b_there b_under

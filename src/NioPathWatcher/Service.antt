-- ===== src/NioPathWatcher/Service.antt =====
-- `NioPathWatcherService`: the monitors of `fs.watch`, and what their events become.
use file_tree_views.Base.{
  ℕ, suc, Bool, false, not, ◌&&◌, ◌||◌, Option, none, some, List, [], ◌∷◌, str_eq, ◌==◌, nat_eq,
  Str, if◌then◌else◌,
}
use file_tree_views.Base.Dict.{Dict, lookup, insert, erase}
use file_tree_views.Either.{Either, left, right, IoException, file_system_loop}
use file_tree_views.Path.{NodePath, JsPath, starts_with, resolve, paths_get}
use file_tree_views.TypedPath.{TypedPath}
use file_tree_views.Event.{delete_kind, error_kind, modify_kind, Event}
use file_tree_views.DirectoryTree.Sorting.{less, sort}

-- A `WatchedDirectory`: `WatchedDirectories.INVALID`, or a monitor of a path with its number.
pub data Watched : Type 0 where
  invalid : Watched
  monitor : ℕ → JsPath → Watched

-- `watchedDirectoriesByPath`, and the monitors whose `closed` is not set.
pub record Service : Type 0 where
  pub next : ℕ
  pub opened : List ℕ
  pub monitors : Dict JsPath Watched

-- What is asked of the disk. `attributes` tells whether a path is a directory and whether a link.
pub record Disk : Type 0 where
  pub to_real_path : JsPath → Either IoException JsPath
  pub attributes : JsPath → Either IoException (Bool × Bool)
  pub file_exists : JsPath → Bool
  pub typed_path_at : JsPath → TypedPath
  -- What `fs.watch` of a path throws, if it throws.
  pub watch : JsPath → Option Str

abbrev pub is_opened : ℕ → List ℕ → Bool
is_opened i [] = false
is_opened i (j ∷ js) = nat_eq i j || is_opened i js

-- `closed.set(true)`
unfoldable pub shut : ℕ → List ℕ → List ℕ
shut i [] = []
shut i (j ∷ js) = let rest = shut i js in if nat_eq i j then rest else j ∷ rest

-- How a registration ends without a directory: `failed` is the left value of an `Either`, and `threw`
-- what `fs.watch` throws, which is no `IOException`, so that no `catch` clause of the service takes it.
pub data Failure : Type 0 where
  failed : IoException → Failure
  threw : Str → Failure

abbrev pub Answer : Type 0
Answer = Either Failure Watched × Service

abbrev pub begun : JsPath → Service → Option Str → Answer
begun p s (some code) = (left (threw code), s)
begun p s none = (
  right (monitor s.next p),
  record {
    next = suc s.next;
    opened = s.next ∷ s.opened;
    monitors = insert p (monitor s.next p) s.monitors;
  },
)

-- `fs.watch(path)` and `setOnError`. Where the latter throws, it is tried once more by a timer; that
-- decides only whether `on_error` is called later, and nothing of the state.
abbrev pub start : Disk → JsPath → Service → Answer
start disk p s = begun p s (disk.watch p)

abbrev pub give_up : JsPath → Service → Answer
give_up p s = (right invalid, record s { monitors = insert p invalid s.monitors })

-- `isValid(path)` and what follows from it.
abbrev pub judged : Disk → JsPath → Service → Either IoException (Bool × Bool) → Answer
judged disk p s (left x) = (left (failed x), s)
judged disk p s (right (is_dir, is_link)) =
    if is_dir && not is_link then start disk p s else give_up p s

abbrev pub known_or : Answer → Service → Option Watched → Answer
known_or fresh s none = fresh
known_or fresh s (some w) = (right w, s)

-- `registerImpl(path)`
unfoldable pub register_impl : Disk → JsPath → Service → Answer
register_impl disk p s = known_or (judged disk p s (disk.attributes p)) s (lookup p s.monitors)

abbrev pub real_or : JsPath → Either IoException JsPath → JsPath
real_or p (left x) = p
real_or p (right q) = q

-- `register(path)`
unfoldable pub register : Disk → JsPath → Service → Answer
unfolding register_impl
register disk p s =
    let real = real_or p (disk.to_real_path p) in
    if starts_with p real && not (p == real)
    then (left (failed (file_system_loop p)), s)
    else register_impl disk p s

-- `close()` of a `WatchedDirectory`
unfoldable pub close_watched : Watched → Service → Service
unfolding shut
close_watched invalid s = s
close_watched (monitor i p) s =
    if is_opened i s.opened
    then record s { opened = shut i s.opened; monitors = erase p s.monitors }
    else s

-- The handler of an error of a monitor.
unfoldable pub on_error : Disk → ℕ → JsPath → Service → Event × Service
unfolding shut
on_error disk i p s = (
  record { typed_path = disk.typed_path_at p; kind = error_kind },
  record s { opened = shut i s.opened; monitors = insert p invalid s.monitors },
)

-- The name that an event of `fs.watch` carries may be `null`.
abbrev name_or_empty : Option Str → Str
name_or_empty none = []
name_or_empty (some n) = n

-- The handler of an event of the monitor of `p`; `renamed` is whether its type is "rename".
unfoldable pub on_event : NodePath → Disk → JsPath → Bool → Option Str → Event
on_event node disk p renamed name =
    let q = resolve node p (paths_get node (name_or_empty name) []) in
    record {
      typed_path = disk.typed_path_at q;
      kind = if renamed && not (disk.file_exists q) then delete_kind else modify_kind;
    }

unfoldable pub close_loop : Dict JsPath Watched → Service → Service
unfolding close_watched
close_loop [] s = s
close_loop ((p, w) ∷ ws) s = close_loop ws (close_watched w s)

abbrev pub by_path_down : JsPath × Watched → JsPath × Watched → Bool
by_path_down a b = less b.0 a.0

-- `close()`: those with the greater paths first.
unfoldable pub close : Service → Service
unfolding close_loop
close s = record (close_loop (sort by_path_down s.monitors) s) { monitors = [] }

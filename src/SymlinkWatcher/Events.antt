-- ===== src/SymlinkWatcher/Events.antt =====
-- What an event on a watched target tells the observers of the links
-- (`SymlinkWatcher$$anon$1.onNext`, `find` and `hasLoop`).
use file_tree_views.Base.{
  ℕ, zero, suc, Bool, false, not, ◌&&◌, Option, none, some, List, [], ◌∷◌, str_eq, ◌==◌, nat_eq,
  if◌then◌else◌,
}
use file_tree_views.Base.Dict.{Dict, lookup, erase}
use file_tree_views.Either.{Either, left, right, IoException}
use file_tree_views.Path.{NodePath, JsPath, starts_with, resolve, relativize, name_count, parent}
use file_tree_views.TypedPath.{TypedPath}
use file_tree_views.Event.{Event}
use file_tree_views.SymlinkWatcher.{Calls, Links, drop_link, is_empty}

-- What `find` gives: a target with its links, nothing, or no end of the search.
pub data Sought : Type 0 where
  sought : JsPath → List JsPath → Sought
  not_found : Sought
  unfinished : Sought

-- The events for the observers, the paths that the watcher of the targets gives up, and the links.
pub record Heard : Type 0 where
  pub events : List Event
  pub unregistered : List JsPath
  pub links : Links

-- What is asked of the disk: `Files.exists(path)` and `TypedPaths.get(path)`.
pub record Disk : Type 0 where
  pub file_exists : JsPath → Bool
  pub typed_path_at : JsPath → TypedPath

module _ (node : NodePath) where
  abbrev pub named_or_none : JsPath → Sought → Sought
  named_or_none p rest = if nat_eq (name_count node p) 0 then not_found else rest

  abbrev pub sought_or : JsPath → Sought → Option (List JsPath) → Sought
  sought_or p rest none = rest
  sought_or p rest (some qs) = sought p qs

  abbrev pub up_from : (JsPath → Sought) → Option JsPath → Sought
  up_from again none = not_found
  up_from again (some q) = named_or_none q (again q)

  -- `find(path, registeredPaths)`, with the greatest number of paths to try.
  unfoldable pub find : ℕ → JsPath → Dict JsPath (List JsPath) → Sought
  find zero p ts = unfinished
  find (suc k) p ts =
      sought_or p (named_or_none p (up_from (λ q. find k q ts) (parent node p))) (lookup p ts)

  abbrev loops_to : JsPath → Either IoException JsPath → Bool
  loops_to q (left x) = false
  loops_to q (right real) = starts_with q real && not (q == real)

  -- `hasLoop(path)`; the call on the parent of a path without one is an exception that it catches.
  unfoldable pub has_loop : Calls → JsPath → Bool
  has_loop c p = elim (parent node p) [ none ↦ false | some q ↦ loops_to q (c.to_real_path q) ]

  -- The paths below the links that stand for a path below the target.
  unfoldable pub raw_paths : Calls → JsPath → List JsPath → List JsPath
  unfolding has_loop
  raw_paths c below [] = []
  raw_paths c below (q ∷ qs) =
      let rest = raw_paths c below qs in
      if has_loop c (resolve node q below) then rest else resolve node q below ∷ rest

  abbrev pub told_paths : Calls → JsPath → Sought → List JsPath
  told_paths c p (sought t qs) = raw_paths c (relativize node t p) qs
  told_paths c p not_found = []
  told_paths c p unfinished = []

  abbrev pub without_target : JsPath → Links → List Event → Option (List JsPath) → Heard
  without_target p s es none = record { events = es; unregistered = []; links = s }
  without_target p s es (some qs) = record {
    events = es;
    unregistered = if is_empty (drop_link p qs) then p ∷ [] else [];
    links = record s { targets = erase p s.targets };
  }

  abbrev pub events_of : Disk → Event → List JsPath → List Event
  events_of disk e [] = []
  events_of disk e (q ∷ qs) =
      record { typed_path = disk.typed_path_at q; kind = e.kind } ∷ events_of disk e qs

  -- `onNext(event)`
  unfoldable pub on_next : Calls → Disk → ℕ → Event → Links → Heard
  unfolding find raw_paths drop_link
  on_next c disk fuel e s =
      let p = e.typed_path.path in
      let es = events_of disk e (told_paths c p (find fuel p s.targets)) in
      if s.is_closed
      then record { events = []; unregistered = []; links = s }
      else if disk.file_exists p
      then record { events = es; unregistered = []; links = s }
      else without_target p s es (lookup p s.targets)

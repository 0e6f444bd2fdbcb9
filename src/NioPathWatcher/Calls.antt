-- ===== src/NioPathWatcher/Calls.antt =====
-- `register`, `unregister`, `handleEvent`, `handleOverflow` and `close`.
use file_tree_views.Base.{
  ℕ, Bool, true, false, not, ◌&&◌, ◌||◌, Option, none, some, List, [], ◌∷◌, ◌++◌, str_eq, keep,
  if◌then◌else◌,
}
use file_tree_views.Base.Int.{ℤ, pos, negsuc, ltb_ℤ}
use file_tree_views.Base.Dict.{Dict, insert, erase}
use file_tree_views.Either.{Either, left, right, all_pass}
use file_tree_views.Path.{JsPath, to_absolute, name_count, relativize}
use file_tree_views.TypedPath.{TypedPath}
use file_tree_views.Entry.{Entry, typed, path_of, get_value, set_gone}
use file_tree_views.Event.{delete_kind, overflow_kind, is_kind, Event}
use file_tree_views.CachedDirectory.Tree.{Directory, dir_path}
use file_tree_views.CachedDirectory.Finding.{list_entries}
use file_tree_views.CachedDirectory.Removal
use file_tree_views.Registry.{RegisteredDirectory}
use file_tree_views.DirectoryTree.State.{add_watched, is_accepted, depth_for}
use file_tree_views.NioPathWatcher.Service.{Watched}
use file_tree_views.NioPathWatcher.Callbacks.{run_callbacks}
use file_tree_views.NioPathWatcher.State.{Watcher, World, Root, accepts_prefix, find, get_or_add}
use file_tree_views.NioPathWatcher.Updating.{
  and_then, with_event, remove_from, remove, update_root, add,
}

-- What the observers are told, and the state after.
abbrev pub Told : Type 0
Told = List Event × Watcher

abbrev is_first_right : List (Entry Watched) → Bool
is_first_right [] = true
is_first_right (e ∷ es) = elim (get_value e) [ left x ↦ false | right v ↦ true ]

abbrev pub without_events : Watcher → Watcher
without_events s = record s { events = [] }

module _ (w : World) where
  open w use {setting, list_at, to_real_path}
  open setting use {node, typed_path_at}

  -- `runCallbacks(events)`
  abbrev pub told : Watcher → Told
  told s =
      (run_callbacks (λ p. is_accepted node s.watched p) typed_path_at s.events, without_events s)

  abbrev real_path_of : JsPath → JsPath
  real_path_of p = elim (to_real_path p) [ left x ↦ to_absolute node p | right q ↦ q ]

  -- An entry that `unregister` gives up: it leaves the root and tells no event.
  abbrev given_up : Directory Watched × Watcher → Entry Watched → Directory Watched × Watcher
  given_up (d, s) e =
      if accepts_prefix node s.watched (path_of e)
      then (d, s)
      else remove_from w false (path_of e) d s

  unfoldable pub give_up_all :
      List (Entry Watched) → Directory Watched × Watcher → Directory Watched × Watcher
  give_up_all [] r = r
  give_up_all (e ∷ es) r = give_up_all es (given_up r e)

  abbrev without_root : Directory Watched × Watcher → Watcher
  without_root (d, s) = record s { roots = erase (dir_path d) s.roots }

  -- An entry that leads to no registration.
  abbrev pub no_prefix : Dict JsPath RegisteredDirectory → Entry Watched → Bool
  no_prefix ws e = not (accepts_prefix node ws (path_of e))

  abbrev pub unregistered : JsPath → Watcher → Option Root → Watcher
  unregistered p s none = s
  unregistered p s (some (k, d)) = without_root (
      give_up_all
        (list_entries node (dir_path d) (pos (name_count node (relativize node (dir_path d) p)))
          (no_prefix s.watched) d)
        (d, s))

  -- `unregister(path)`
  unfoldable pub unregister : JsPath → Watcher → Watcher
  unfolding find give_up_all
  unregister path s =
      let p = to_absolute node path in
      let rest = record s { watched = erase p s.watched } in
      unregistered p rest (find p rest.roots).0

  abbrev gone_events : List (Entry Watched) → Watcher → Watcher
  gone_events [] s = s
  gone_events (e ∷ es) s = gone_events es (with_event (typed (set_gone node e)) delete_kind s)

  abbrev lost : JsPath → JsPath → Directory Watched → Watcher → Watcher
  lost p k d s =
      let (es, rest) = Removal.remove node p d in
      gone_events es (record s { roots = insert k rest s.roots })

  module _ (fuel : ℕ) where
    abbrev updated_unless : Bool → TypedPath → Option Root × Watcher → Option Watcher
    updated_unless deeper t (none, s) = some s
    updated_unless deeper t (some (k, d), s) =
        if deeper || is_first_right (list_entries node t.path (negsuc 0) all_pass d)
        then update_root w fuel t true (k, d) s
        else some s

    abbrev registered_as : Bool → Watcher → Option (Bool × Told)
    registered_as deeper s = some (deeper, told s)

    -- `register(path, maxDepth)`, whose result is always a right value.
    unfoldable pub register : JsPath → ℤ → Watcher → Option (Bool × Told)
    unfolding get_or_add update_root add_watched
    register path n s =
        let p = to_absolute node path in
        let t = typed_path_at p in
        let deeper = ltb_ℤ (depth_for node s.watched p) n in
        let ws = if deeper then (add_watched t.path n s.watched).1 else s.watched in
        and_then
          (and_then (get_or_add w fuel (real_path_of p) (record s { watched = ws; events = [] }))
            (updated_unless deeper t))
          (registered_as deeper)

    unfoldable pub add_all : List TypedPath → Watcher → Option Watcher
    unfolding add
    add_all [] s = some s
    add_all (t ∷ ts) s = and_then (add w fuel t s) (add_all ts)

    -- A directory that leads to a registration.
    abbrev leads_on : Dict JsPath RegisteredDirectory → TypedPath → Bool
    leads_on ws t = t.is_directory && accepts_prefix node ws t.path

    abbrev overflowed_root : JsPath → Watcher → Option Root → Option Watcher
    overflowed_root p s none = some s
    overflowed_root p s (some (k, d)) = elim (list_at p) [
      | left x ↦ some (lost p k d s)
      | right ts ↦ add_all (keep (leads_on s.watched) ts) s
    ]

    abbrev overflow_told : JsPath → Watcher → Option Told
    overflow_told p s =
        let t = typed_path_at p in
        some (told (with_event t (if t.exists then overflow_kind else delete_kind) s))

    -- `handleOverflow(overflow)`
    unfoldable pub handle_overflow : JsPath → Watcher → Option Told
    unfolding find add_all
    handle_overflow p s =
        and_then (overflowed_root p (without_events s) (find p s.roots).0) (overflow_told p)

    abbrev collect : Event → Watcher → Watcher
    collect e s = record s { events = s.events ++ e ∷ [] }

    abbrev collected : Event → Watcher → Option Watcher
    collected e s = some (collect e s)

    -- The part of `handleEvent` for a path that leads to a registration.
    unfoldable pub handle_accepted : Event → Watcher → Option Watcher
    unfolding remove add
    handle_accepted e s =
        let t = typed_path_at e.typed_path.path in
        let is_delete = is_kind e.kind delete_kind in
        let next = if is_delete then remove w t.path s else s in
        if t.exists
        then and_then
            (if t.is_directory && not t.is_symbolic_link then add w fuel t next else some next)
            (collected e)
        else if is_delete
        then some (collect e next)
        else some (remove w t.path next)

    abbrev all_told : Watcher → Option Told
    all_told s = some (told s)

    -- `handleEvent(event)`
    unfoldable pub handle_event : Event → Watcher → Option Told
    unfolding handle_accepted
    handle_event e s =
        let start = without_events s in
        if not s.is_closed && accepts_prefix node s.watched e.typed_path.path
        then and_then (handle_accepted e start) all_told
        else some (told start)

    -- The consumer of the service's events.
    unfoldable pub consume : Either JsPath Event → Watcher → Option Told
    unfolding handle_event handle_overflow
    consume (right e) s = if s.is_closed then some ([], s) else handle_event e s
    consume (left p) s = if s.is_closed then some ([], s) else handle_overflow p s

-- `close()`; the service closes too.
unfoldable pub close : Watcher → Watcher
close s = if s.is_closed then s else record s { is_closed = true; roots = [] }

-- ===== src/DirectoryTree/Handle.antt =====
-- `handleEvent` and `handleDelete`.
use file_tree_views.Base.{
  ℕ, Bool, false, not, ◌&&◌, ◌||◌, none, some, List, [], ◌∷◌, ◌++◌, map, str_eq, ◌==◌,
  if◌then◌else◌,
}
use file_tree_views.Base.Int.{negsuc, max_value}
use file_tree_views.Base.Dict.{Dict, insert, erase, keys}
use file_tree_views.Either.{left, right, IoException, not_directory, all_pass}
use file_tree_views.Path.{JsPath, starts_with}
use file_tree_views.TypedPath.{TypedPath, typed_path, link_bit}
use file_tree_views.Entry.{Entry, typed, set_gone}
use file_tree_views.Event.{overflow_kind, is_kind, Event}
use file_tree_views.Changes.{Change, create, delete, observe}
use file_tree_views.CachedDirectory.Tree.{Setting, Directory, entry_of, depth_of, dir_path}
use file_tree_views.CachedDirectory.Finding
use file_tree_views.CachedDirectory.Removal
use file_tree_views.CachedDirectory.Update
use file_tree_views.CachedDirectory.Update.{Updated, updated, update_threw, update_exhausted}
use file_tree_views.SymlinkWatcher
use file_tree_views.SymlinkWatcher.{Calls, Links}
use file_tree_views.DirectoryTree.State.{
  Cache, Callback, Collected, depth_for, is_pending, add_pending, add_callback, add_callbacks,
  run_callbacks,
}
use file_tree_views.DirectoryTree.Lookup.{find}
use file_tree_views.DirectoryTree.Register.{
  Made, made, refused, made_none, filtered, new_cached_directory,
}

-- The end of the part under the lock.
pub data Noted (T : Type 0) : Type 0 where
  noted : Collected T → Cache T → Noted T
  noted_none : Noted T

-- The end of `handleEvent`: the callbacks in the order in which they run, what the links made the
-- observers' `onError` told of, and the state.
pub data Handled (T : Type 0) : Type 0 where
  handled : List (Callback T) → List IoException → Cache T → Handled T
  handled_none : Handled T

abbrev pub has_path : JsPath → List JsPath → Bool
has_path p [] = false
has_path p (q ∷ qs) = p == q || has_path p qs

module _ {T : Type 0} (c : Setting T) where
  open c use {node, follow_links}

  -- The entries that a directory gives up to `handleDelete`, with the directory as it is left.
  unfoldable pub given_up : JsPath → Directory T → List (Entry T) × Directory T
  given_up p d =
      let (es, new) = Removal.remove node p d in
      if p == dir_path d
      then (
        Finding.list_entries node (dir_path d) max_value all_pass d ++ es ++ entry_of new ∷ [],
        new,
      )
      else (es, new)

  abbrev pub left_behind : JsPath → JsPath → Directory T → Directory T → Cache T → Cache T
  left_behind p k d new s = record s {
    directories =
        if dir_path d == p
        then erase p (insert k new s.directories)
        else insert k new s.directories;
    pending = if has_path p (keys s.watched) then add_pending p s.pending else s.pending;
  }

  -- The loop over a copy of the directories: the entries that are gone, and the state.
  unfoldable pub delete_loop :
      JsPath → Dict JsPath (Directory T) → Cache T → List (Entry T) × Cache T
  unfolding given_up
  delete_loop p [] s = ([], s)
  delete_loop p ((k, d) ∷ ds) s =
      if starts_with p (dir_path d)
      then (let rest = delete_loop p ds (left_behind p k d (given_up p d).1 s) in
          ((given_up p d).0 ++ rest.0, rest.1))
      else delete_loop p ds s

  abbrev pub unlinked : TypedPath → Links → Links
  unlinked t l = if follow_links && t.is_symbolic_link then SymlinkWatcher.remove t.path l else l

  -- The loop over the entries that are gone.
  unfoldable pub report_gone : List (Entry T) → Collected T → Cache T → Collected T × Cache T
  report_gone [] w s = (w, s)
  report_gone (e ∷ es) w s =
      report_gone es (add_callback follow_links (delete (set_gone node e)) w)
        (record s { links = unlinked (typed (set_gone node e)) s.links })

  -- `handleDelete(path, callbacks, symlinks)`
  unfoldable pub handle_delete : JsPath → Collected T → Cache T → Collected T × Cache T
  unfolding delete_loop report_gone
  handle_delete p w s = let (es, rest) = delete_loop p s.directories s in report_gone es w rest

  abbrev noted_pair : Collected T × Cache T → Noted T
  noted_pair (w, s) = noted w s

  abbrev noticed : JsPath → JsPath → Collected T → Cache T → Updated T → Noted T
  noticed p k w s (updated u d) =
      noted (add_callbacks follow_links (observe node u) w)
        (record s { directories = insert k d s.directories })
  noticed p k w s (update_threw x d) =
      noted_pair (handle_delete p w (record s { directories = insert k d s.directories }))
  noticed p k w s update_exhausted = noted_none

  module _ (fuel : ℕ) (rescan : Bool) (calls : Calls) where
    abbrev update_path : TypedPath → TypedPath
    update_path t =
        if follow_links || not t.is_symbolic_link then t else typed_path node t.path link_bit

    abbrev creations : Directory T → List (Change T)
    creations d =
        create (entry_of d)
        ∷ map create (Finding.list_entries node (dir_path d) (depth_of d) all_pass d)

    -- A pending path came into being.
    abbrev appeared : JsPath → Collected T → Cache T → Made T → Noted T
    appeared p w s (made d) =
        noted (add_callbacks follow_links (creations d) w)
          (record s { directories = insert p d s.directories })
    appeared p w s (refused x) = noted w (record s { pending = add_pending p s.pending })
    appeared p w s made_none = noted_none

    abbrev appeared_at_all : JsPath → Collected T → Cache T → Made T → Noted T
    appeared_at_all p w s (refused (not_directory m)) =
        appeared p w s (new_cached_directory c fuel s.watched p (negsuc 0))
    appeared_at_all p w s m = appeared p w s m

    -- The part for a path that exists.
    unfoldable pub handle_existing : Event → Collected T → Cache T → Noted T
    unfolding handle_delete
    handle_existing e w s =
        let t = e.typed_path in
        elim (find node t.path s.directories) [
          | none ↦
              if is_pending t.path s.pending
              then appeared_at_all t.path w s
                  (new_cached_directory c fuel s.watched t.path (depth_for node s.watched t.path))
              else noted w s
          | some (k, d) ↦ noticed t.path k w s (
              Update.update (filtered c fuel s.watched) fuel (update_path t)
                (rescan || is_kind e.kind overflow_kind) d)
        ]

    abbrev linked : TypedPath → Cache T → List IoException × Cache T
    linked t s =
        if t.exists
        then (let (r, l) =
              SymlinkWatcher.add_symlink calls t.path (depth_for node s.watched t.path) s.links in
            (elim r [ left x ↦ x ∷ [] | right u ↦ [] ], record s { links = l }))
        else ([], record s { links = SymlinkWatcher.remove t.path s.links })

    -- The loop over the links that were collected.
    unfoldable pub link_loop : List TypedPath → Cache T → List IoException × Cache T
    link_loop [] s = ([], s)
    link_loop (t ∷ ts) s =
        let (xs, next) = linked t s in let (ys, rest) = link_loop ts next in (xs ++ ys, rest)

    abbrev finished : Noted T → Handled T
    finished (noted w s) =
        let (xs, rest) = if follow_links then link_loop w.symlinks s else ([], s) in
        handled (run_callbacks rest.is_closed w.callbacks) xs rest
    finished noted_none = handled_none

    abbrev nothing_yet : Collected T
    nothing_yet = record { callbacks = []; symlinks = [] }

    -- `handleEvent(event)`
    unfoldable pub handle_event : Event → Cache T → Handled T
    unfolding handle_existing link_loop
    handle_event e s =
        if s.is_closed
        then handled [] [] s
        else if e.typed_path.exists
        then finished (handle_existing e nothing_yet s)
        else finished (noted_pair (handle_delete e.typed_path.path nothing_yet s))

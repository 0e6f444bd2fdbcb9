-- ===== src/SymlinkFollowing.antt =====
-- com/swoval/files/SymlinkFollowingPathWatcher.scala, as it stands in files/js/npm/files.js
-- (`SymlinkFollowingPathWatcher` and its anonymous classes): a watcher that follows the links below
-- what another watcher watches. That watcher and `FileTreeViews.list` are the record `Outside`.
pub mod Kept
pub mod Traced
use file_tree_views.Base.{
  Bool, true, false, not, ◌&&◌, Option, none, some, List, [], ◌∷◌, ◌++◌, keep, if◌then◌else◌,
}
use file_tree_views.Base.Int.{ℤ}
use file_tree_views.Base.Dict.{Dict}
use file_tree_views.Either.{Either, left, right, IoException}
use file_tree_views.Path.{NodePath, JsPath, to_absolute}
use file_tree_views.TypedPath.{TypedPath}
use file_tree_views.Event.{create_kind, Event}
use file_tree_views.Registry.{RegisteredDirectory}
use file_tree_views.SymlinkWatcher
use file_tree_views.SymlinkWatcher.{Calls, Links, Ended, add_symlink}
use file_tree_views.DirectoryTree.State.{depth_for}

pub record Outside : Type 0 where
  pub node : NodePath
  -- `pathWatcher.register(path, maxDepth)`
  pub register_inner : JsPath → ℤ → Either IoException Bool
  -- `FileTreeViews.list(path, maxDepth, AllPass)`
  pub list_at : JsPath → ℤ → Either IoException (List TypedPath)
  -- What the `SymlinkWatcher` calls.
  pub calls : Calls

-- What the observers are told.
pub data Note : Type 0 where
  next : Event → Note
  error : IoException → Note

-- The end of a call that may throw: what the observers were told, and the links.
pub record Acted : Type 0 where
  pub result : Either IoException (Unit {0})
  pub notes : List Note
  pub links : Links

module _ (o : Outside) (ws : Dict JsPath RegisteredDirectory) where
  open o use {node, register_inner, list_at, calls}

  abbrev pub create_note : Bool → TypedPath → List Note
  create_note trigger t =
      if trigger then next (record { typed_path = t; kind = create_kind }) ∷ [] else []

  abbrev pub linked : TypedPath → Links → Ended
  linked t l =
      if t.is_symbolic_link
      then add_symlink calls t.path (depth_for node ws t.path) l
      else (right tt, l)

  abbrev pub with_notes : List Note → Acted → Acted
  with_notes ns a = record a { notes = ns ++ a.notes }

  abbrev pub and_then : Ended → (Links → Acted) → Acted
  and_then (left x, l) k = record { result = left x; notes = []; links = l }
  and_then (right u, l) k = k l

  -- The loop of `handleNewDirectory`.
  unfoldable pub directory_loop : Bool → List TypedPath → Links → Acted
  directory_loop trigger [] l = record { result = right tt; notes = []; links = l }
  directory_loop trigger (t ∷ ts) l =
      let rest = directory_loop trigger ts in
      and_then (linked t l) (λ m. with_notes (create_note trigger t) (rest m))

  abbrev pub listed : Bool → Links → Either IoException (List TypedPath) → Acted
  listed trigger l (left x) = record { result = left x; notes = []; links = l }
  listed trigger l (right ts) = directory_loop trigger ts l

  -- `handleNewDirectory(path, maxDepth, trigger)`
  unfoldable pub handle_new_directory : JsPath → ℤ → Bool → Links → Acted
  unfolding directory_loop
  handle_new_directory p n trigger l = listed trigger l (list_at p n)

  -- The `try` for a path that is a link.
  unfoldable pub follow : TypedPath → Links → Acted
  unfolding handle_new_directory
  follow t l =
      let n = depth_for node ws t.path in
      and_then (add_symlink calls t.path n l) (λ m.
        if t.is_directory
        then handle_new_directory t.path n true m
        else record { result = right tt; notes = []; links = m })

  abbrev pub with_error : Either IoException (Unit {0}) → List Note
  with_error (left x) = error x ∷ []
  with_error (right u) = []

  abbrev pub caught : Acted → List Note × Links
  caught a = (a.notes ++ with_error a.result, a.links)

  abbrev pub told_last : Event → List Note × Links → List Note × Links
  told_last e (ns, l) = (ns ++ next e ∷ [], l)

  -- `onNext(event)` of the observer of the inner watcher
  unfoldable pub on_next : Event → Links → List Note × Links
  unfolding follow
  on_next e l =
      let t = e.typed_path in
      told_last e (
        if t.exists && t.is_symbolic_link
        then caught (follow t l)
        else if not t.exists
        then ([], SymlinkWatcher.remove t.path l)
        else ([], l))

  abbrev pub true_or_thrown : Either IoException (Unit {0}) → Either IoException Bool
  true_or_thrown (left x) = left x
  true_or_thrown (right u) = right true

  abbrev pub listed_result : Acted → Either IoException Bool × Links
  listed_result a = (true_or_thrown a.result, a.links)

  abbrev pub registered :
      JsPath → ℤ → Links → Either IoException Bool → Either IoException Bool × Links
  registered p n l (left x) = (left x, l)
  registered p n l (right b) = listed_result (handle_new_directory p n false l)

  -- `register(path, maxDepth)`
  unfoldable pub register : JsPath → ℤ → Links → Either IoException Bool × Links
  unfolding handle_new_directory
  register p n l = registered (to_absolute node p) n l (register_inner (to_absolute node p) n)

  unfoldable pub remove_all : List TypedPath → Links → Links
  remove_all [] l = l
  remove_all (t ∷ ts) l = remove_all ts (SymlinkWatcher.remove t.path l)

  abbrev pub removed : Links → Either IoException (List TypedPath) → Links
  removed l (left x) = l
  removed l (right ts) = remove_all (keep (λ t. t.is_symbolic_link) ts) l

  -- `unregister(path)`: the links, and the path that the inner watcher is told to unregister.
  unfoldable pub unregister : JsPath → Links → JsPath × Links
  unfolding remove_all
  unregister path l =
      let p = to_absolute node path in (p, removed l (list_at p (depth_for node ws p)))

-- The observer of the `SymlinkWatcher`: what happens to a target is told of its link.
unfoldable pub on_link : Event → List Note
on_link e = next e ∷ []

-- `close()`: the inner watcher closes, and the links.
unfoldable pub close : Links → Links
close l = SymlinkWatcher.close l

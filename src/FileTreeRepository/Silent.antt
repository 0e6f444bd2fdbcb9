-- ===== src/FileTreeRepository/Silent.antt =====
-- A repository that was closed.
use file_tree_views.Base.{
  ℕ, ◌≡◌, refl, Bool, true, false, none, some, [], Bool-cases, inl, inr, arith,
}
use file_tree_views.Base.Int.{ℤ}
use file_tree_views.Path.{JsPath}
use file_tree_views.TypedPath.{TypedPath}
use file_tree_views.Entry.{Entry}
use file_tree_views.Event.{Event}
use file_tree_views.SymlinkWatcher
use file_tree_views.SymlinkWatcher.{Calls, Links}
use file_tree_views.CachedDirectory.Tree.{Setting}
use file_tree_views.DirectoryTree.Sorting.{sort}
use file_tree_views.DirectoryTree.State.{Cache}
use file_tree_views.DirectoryTree.Lookup
use file_tree_views.DirectoryTree.Lookup.{first_covering, descends}
use file_tree_views.DirectoryTree.Register
use file_tree_views.DirectoryTree.Handle.{handled, handle_event}
use file_tree_views.FileTreeRepository.{Repository, close, list, list_entries, on_next}

module _ {T : Type 0} (c : Setting T) (fuel : ℕ) (calls : Calls) where
  -- A closed tree has no directory.
  abbrev IsEmptied : Cache T → Type 0
  IsEmptied s = (s.is_closed ≡ true) × (s.directories ≡ [])

  close-IsEmptied : (s : Cache T) → s.is_closed ≡ false → IsEmptied (Register.close s)
  unfolding Register.close
  close-IsEmptied s open_ = rw open_ (refl, refl)

  find-IsEmptied :
      (s : Cache T) (p : JsPath) → IsEmptied s → Lookup.find c.node p s.directories ≡ none
  unfolding Lookup.find first_covering sort
  find-IsEmptied s p (k, e) = rw e refl

  list-IsEmptied :
      (s : Cache T) (p : JsPath) (n : ℤ) (accept : TypedPath → Bool)
      → IsEmptied s
      → Lookup.list c.node p n accept s ≡ []
  unfolding Lookup.list
  list-IsEmptied s p n accept h = rw (find-IsEmptied s p h, Lookup.list) refl

  list_entries-IsEmptied :
      (s : Cache T) (p : JsPath) (n : ℤ) (accept : Entry T → Bool)
      → IsEmptied s
      → Lookup.list_entries c.node p n accept s ≡ []
  unfolding Lookup.list_entries
  list_entries-IsEmptied s p n accept h = rw (find-IsEmptied s p h, Lookup.list_entries) refl

  handle_event-IsEmptied :
      (rescan : Bool) (e : Event) (s : Cache T)
      → IsEmptied s
      → handle_event c fuel rescan calls e s ≡ handled [] [] s
  unfolding handle_event
  handle_event-IsEmptied rescan e s (k, m) = ground (arith, k)

  close-tree :
      (r : Repository T)
      → r.is_closed ≡ false
      → r.tree.is_closed ≡ false
      → IsEmptied (close c fuel calls r).tree
  unfolding close
  close-tree r o t = elim (Bool-cases c.follow_links) [
    | inl y ↦
        simp (o, y)
          (close-IsEmptied (record r.tree { links = SymlinkWatcher.close r.tree.links }) t)
    | inr n ↦ simp (o, n) (close-IsEmptied r.tree t)
  ]

  -- Once a repository that is open, as its tree is, is closed, it lists nothing under any path, has no
  -- entry, and an event tells nothing and changes nothing.
  pub close-silent :
      (r : Repository T) (p : JsPath) (n : ℤ) (accept : TypedPath → Bool) (admit : Entry T → Bool)
      (rescan : Bool) (e : Event)
      → r.is_closed ≡ false
      → r.tree.is_closed ≡ false
      → (list c fuel calls p n accept (close c fuel calls r) ≡ [])
        × (list_entries c fuel calls p n admit (close c fuel calls r) ≡ [])
        × (on_next c fuel calls rescan e (close c fuel calls r)
            ≡ some ([], [], close c fuel calls r))
  unfolding list list_entries on_next
  close-silent r p n accept admit rescan e o t =
      let h = close-tree r o t in
      (
        list-IsEmptied (close c fuel calls r).tree p n accept h,
        list_entries-IsEmptied (close c fuel calls r).tree p n admit h,
        rw (handle_event-IsEmptied rescan e (close c fuel calls r).tree h) refl,
      )

-- ===== src/SymlinkFollowing/Kept.antt =====
-- What the operations keep true of the links, and what they answer.
use file_tree_views.Base.{◌≡◌, Bool, true, false, not, ◌&&◌, List, [], ◌∷◌, keep, if◌then◌else◌}
use file_tree_views.Base.Int.{ℤ, pos}
use file_tree_views.Base.Dict.{Dict}
use file_tree_views.Either.{Either, left, right, IoException}
use file_tree_views.Path.{JsPath, to_absolute}
use file_tree_views.TypedPath.{TypedPath}
use file_tree_views.Event.{Event}
use file_tree_views.Registry.{RegisteredDirectory}
use file_tree_views.SymlinkWatcher
use file_tree_views.SymlinkWatcher.{Links, Ended, add_symlink}
use file_tree_views.SymlinkWatcher.Used.{IsUsed, add_symlink-remove-IsUsed}
use file_tree_views.DirectoryTree.State.{depth_for}
use file_tree_views.SymlinkFollowing.{
  Outside, Acted, linked, with_notes, create_note, and_then, directory_loop, listed,
  handle_new_directory, follow, caught, told_last, true_or_thrown, on_next, registered, register,
  remove_all, removed, unregister,
}

module _ (o : Outside) (ws : Dict JsPath RegisteredDirectory) where
  and_then-IsUsed :
      (e : Ended) (k : Links → Acted)
      → IsUsed e.1
      → ((l : Links) → IsUsed l → IsUsed (k l).links)
      → IsUsed (and_then o ws e k).links
  and_then-IsUsed (left x, l) k u h = u
  and_then-IsUsed (right y, l) k u h = h l u

  add-IsUsed : (p : JsPath) (n : ℤ) (l : Links) → IsUsed l → IsUsed (add_symlink o.calls p n l).1
  add-IsUsed p n l u = (add_symlink-remove-IsUsed o.calls p n l u).0

  remove-IsUsed : (p : JsPath) (n : ℤ) (l : Links) → IsUsed l → IsUsed (SymlinkWatcher.remove p l)
  remove-IsUsed p n l u = (add_symlink-remove-IsUsed o.calls p n l u).1

  linked_if :
      (b : Bool) (e : Ended) (l : Links)
      → IsUsed e.1
      → IsUsed l
      → IsUsed (if b then e else (right tt, l)).1
  linked_if true e l h u = h
  linked_if false e l h u = u

  directory_loop-IsUsed :
      (trigger : Bool) (ts : List TypedPath) (l : Links)
      → IsUsed l
      → IsUsed (directory_loop o ws trigger ts l).links
  unfolding directory_loop
  directory_loop-IsUsed trigger [] l u = u
  directory_loop-IsUsed trigger (t ∷ ts) l u =
      let n = depth_for o.node ws t.path in
      and_then-IsUsed (linked o ws t l)
        (λ m. with_notes o ws (create_note o ws trigger t) (directory_loop o ws trigger ts m))
        (linked_if t.is_symbolic_link (add_symlink o.calls t.path n l) l (add-IsUsed t.path n l u)
          u)
        (λ m v. directory_loop-IsUsed trigger ts m v)

  listed-IsUsed :
      (trigger : Bool) (l : Links) (r : Either IoException (List TypedPath))
      → IsUsed l
      → IsUsed (listed o ws trigger l r).links
  listed-IsUsed trigger l (left x) u = u
  listed-IsUsed trigger l (right ts) u = directory_loop-IsUsed trigger ts l u

  handle_new_directory-IsUsed :
      (p : JsPath) (n : ℤ) (trigger : Bool) (l : Links)
      → IsUsed l
      → IsUsed (handle_new_directory o ws p n trigger l).links
  unfolding handle_new_directory
  handle_new_directory-IsUsed p n trigger l u = listed-IsUsed trigger l (o.list_at p n) u

  acted_if :
      (b : Bool) (a : Acted) (l : Links)
      → IsUsed a.links
      → IsUsed l
      → IsUsed (if b then a else record { result = right tt; notes = []; links = l }).links
  acted_if true a l h u = h
  acted_if false a l h u = u

  follow-IsUsed : (t : TypedPath) (l : Links) → IsUsed l → IsUsed (follow o ws t l).links
  unfolding follow
  follow-IsUsed t l u =
      let n = depth_for o.node ws t.path in
      and_then-IsUsed (add_symlink o.calls t.path n l)
        (λ m.
          if t.is_directory
          then handle_new_directory o ws t.path n true m
          else record { result = right tt; notes = []; links = m })
        (add-IsUsed t.path n l u)
        (λ m v.
          acted_if t.is_directory (handle_new_directory o ws t.path n true m) m
            (handle_new_directory-IsUsed t.path n true m v) v)

  told_last-IsUsed :
      (e : Event) (b c : Bool) (a : Acted) (k l : Links)
      → IsUsed a.links
      → IsUsed k
      → IsUsed l
      → IsUsed (told_last o ws e (if b then caught o ws a else if c then ([], k) else ([], l))).1
  told_last-IsUsed e true c a k l h i j = h
  told_last-IsUsed e false true a k l h i j = i
  told_last-IsUsed e false false a k l h i j = j

  on_next-IsUsed : (e : Event) (l : Links) → IsUsed l → IsUsed (on_next o ws e l).1
  unfolding on_next
  on_next-IsUsed e l u =
      let t = e.typed_path in
      told_last-IsUsed e (t.exists && t.is_symbolic_link) (not t.exists) (follow o ws t l)
        (SymlinkWatcher.remove t.path l) l (follow-IsUsed t l u) (remove-IsUsed t.path (pos 0) l u)
        u

  registered-IsUsed :
      (p : JsPath) (n : ℤ) (l : Links) (r : Either IoException Bool)
      → IsUsed l
      → IsUsed (registered o ws p n l r).1
  registered-IsUsed p n l (left x) u = u
  registered-IsUsed p n l (right b) u = handle_new_directory-IsUsed p n false l u

  remove_all-IsUsed : (ts : List TypedPath) (l : Links) → IsUsed l → IsUsed (remove_all o ws ts l)
  unfolding remove_all
  remove_all-IsUsed [] l u = u
  remove_all-IsUsed (t ∷ ts) l u =
      remove_all-IsUsed ts (SymlinkWatcher.remove t.path l) (remove-IsUsed t.path (pos 0) l u)

  removed-IsUsed :
      (l : Links) (r : Either IoException (List TypedPath)) → IsUsed l → IsUsed (removed o ws l r)
  removed-IsUsed l (left x) u = u
  removed-IsUsed l (right ts) u = remove_all-IsUsed (keep (λ t. t.is_symbolic_link) ts) l u

  -- An event of the inner watcher, a registration and an unregistration, also where the disk or the
  -- watcher of the targets refuses, keep no target without a link.
  pub on_next-register-IsUsed :
      (e : Event) (p : JsPath) (n : ℤ) (l : Links)
      → IsUsed l
      → IsUsed (on_next o ws e l).1
        × IsUsed (register o ws p n l).1
        × IsUsed (unregister o ws p l).1
  unfolding register unregister
  on_next-register-IsUsed e p n l u =
      let q = to_absolute o.node p in
      (
        on_next-IsUsed e l u,
        registered-IsUsed q n l (o.register_inner q n) u,
        removed-IsUsed l (o.list_at q (depth_for o.node ws q)) u,
      )

  true_or_thrown-right :
      (r : Either IoException (Unit {0})) (b : Bool) → true_or_thrown o ws r ≡ right b → b ≡ true
  true_or_thrown-right (left x) b e = cc
  true_or_thrown-right (right u) b e = cc

  registered-right :
      (p : JsPath) (n : ℤ) (l : Links) (r : Either IoException Bool) (b : Bool)
      → (registered o ws p n l r).0 ≡ right b
      → b ≡ true
  registered-right p n l (left x) b e = cc
  registered-right p n l (right c) b e =
      true_or_thrown-right (handle_new_directory o ws p n false l).result b e

  -- A registration that does not throw answers `true`, whatever the inner watcher answers.
  pub register-right :
      (p : JsPath) (n : ℤ) (l : Links) (b : Bool) → (register o ws p n l).0 ≡ right b → b ≡ true
  unfolding register
  register-right p n l b e =
      registered-right (to_absolute o.node p) n l (o.register_inner (to_absolute o.node p) n) b e

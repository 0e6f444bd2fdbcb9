-- ===== src/SymlinkFollowing/Traced.antt =====
-- A link that appears, and is gone again.
use file_tree_views.Base.{
  ◌≡◌, refl, ap, ◌∙◌, Bool, true, false, not, ◌&&◌, some, [], ◌∷◌, ◌==◌, str_eq, if◌then◌else◌,
}
use file_tree_views.Base.Dict.{Dict, lookup}
use file_tree_views.Either.{left, right}
use file_tree_views.Path.{JsPath, starts_with}
use file_tree_views.Event.{Event}
use file_tree_views.Registry.{RegisteredDirectory}
use file_tree_views.SymlinkWatcher
use file_tree_views.SymlinkWatcher.{Links, Ended, add_symlink, target_of}
use file_tree_views.SymlinkWatcher.Used.{IsUsed}
use file_tree_views.SymlinkWatcher.Undone.{IsUnlinked, add_symlink-target_of, remove-add_symlink}
use file_tree_views.DirectoryTree.State.{depth_for}
use file_tree_views.SymlinkFollowing.{
  Outside, next, and_then, caught, told_last, follow, handle_new_directory, on_next,
}

if_both {ℓ} :
    {A : Type ℓ} (a b : Bool) (x y : A) → a ≡ true → b ≡ true → (if a && b then x else y) ≡ x
if_both true true x y h k = refl
if_both true false x y h k = cc
if_both false b x y h k = cc

module _ (o : Outside) (ws : Dict JsPath RegisteredDirectory) where
  -- An end without an exception passes on the links, and nothing is told.
  and_then-quiet :
      (e : Ended)
      → e.0 ≡ right tt
      → caught o ws (and_then o ws e (λ m. record { result = right tt; notes = []; links = m }))
        ≡ ([], e.1)
  and_then-quiet (right u, l) h = refl
  and_then-quiet (left x, l) h = cc

  on_next-link :
      (e : Event) (l : Links)
      → e.typed_path.exists ≡ true
      → e.typed_path.is_symbolic_link ≡ true
      → e.typed_path.is_directory ≡ false
      → (add_symlink o.calls e.typed_path.path (depth_for o.node ws e.typed_path.path) l).0
        ≡ right tt
      → on_next o ws e l ≡ (
        next e ∷ [],
        (add_symlink o.calls e.typed_path.path (depth_for o.node ws e.typed_path.path) l).1,
      )
  unfolding on_next follow
  on_next-link e l there link leaf ends =
      let t = e.typed_path in
      let n = depth_for o.node ws t.path in
      let a = add_symlink o.calls t.path n l in
      ap (told_last o ws e) (
        if_both t.exists t.is_symbolic_link (caught o ws (follow o ws t l)) _ there link
        ∙ ap
            (λ (d : Bool). caught o ws (
              and_then o ws a (λ m.
                if d
                then handle_new_directory o ws t.path n true m
                else record { result = right tt; notes = []; links = m })))
            leaf
        ∙ and_then-quiet a ends)

  on_next-gone :
      (g : Event) (l : Links)
      → g.typed_path.exists ≡ false
      → on_next o ws g l ≡ (next g ∷ [], SymlinkWatcher.remove g.typed_path.path l)
  unfolding on_next
  on_next-gone g l gone = rw gone refl

  -- Let the links be open and no target without a link. An event of an existing link that is under no
  -- target and is no directory, whose real path is no loop and can be watched, makes it a link to
  -- its real path; an event after it that the same path is gone leaves every target with the links
  -- that it had before. The observers are told each event and nothing else.
  pub on_next-on_next :
      (e g : Event) (real t : JsPath) (l : Links)
      → e.typed_path.exists ≡ true
      → e.typed_path.is_symbolic_link ≡ true
      → e.typed_path.is_directory ≡ false
      → g.typed_path.exists ≡ false
      → g.typed_path.path ≡ e.typed_path.path
      → l.is_closed ≡ false
      → o.calls.to_real_path e.typed_path.path ≡ right real
      → (starts_with e.typed_path.path real && not (e.typed_path.path == real)) ≡ false
      → o.calls.register real (depth_for o.node ws e.typed_path.path) ≡ right true
      → IsUnlinked e.typed_path.path l.targets
      → IsUsed l
      → ((on_next o ws e l).0 ≡ next e ∷ [])
        × (target_of e.typed_path.path (on_next o ws e l).1.targets ≡ some real)
        × ((on_next o ws g (on_next o ws e l).1).0 ≡ next g ∷ [])
        × (lookup t (on_next o ws g (on_next o ws e l).1).1.targets ≡ lookup t l.targets)
  on_next-on_next e g real t l there link leaf gone same open_ found no_loop watched free used =
      let p = e.typed_path.path in
      let n = depth_for o.node ws p in
      let (ends, target) =
        add_symlink-target_of o.calls p real n l open_ found no_loop watched free in
      let added = on_next-link e l there link leaf ends in
      rw (added, on_next-gone g (add_symlink o.calls p n l).1 gone, same)
        (
          refl,
          target,
          refl,
          remove-add_symlink o.calls p real t n l open_ found no_loop watched free used,
        )

-- ===== src/SymlinkWatcher/Undone.antt =====
-- A link that is added, and removed again.
use file_tree_views.Base.{
  ◌≡◌, ◌≢◌, refl, ap, ◌∙◌, Bool, true, false, not, ◌&&◌, Option, none, some, List, [], ◌∷◌, str_eq,
  ◌==◌, ==_refl, if◌then◌else◌, arith, Option-cases, inl, inr, All,
}
use file_tree_views.Base.Int.{ℤ}
use file_tree_views.Base.Dict.{Dict, lookup, insert, erase, lookup-insert, lookup-erase}
use file_tree_views.Either.{left, right, file_system_loop}
use file_tree_views.Path.{JsPath, starts_with}
use file_tree_views.SymlinkWatcher.{
  Calls, Ended, Links, has_link, add_link, drop_link, set_target, registered, linked, resolved,
  add_symlink, target_of, is_empty, remove,
}
use file_tree_views.SymlinkWatcher.Used.{IsUsed}

-- No target has the link.
abbrev pub IsUnlinked : JsPath → Dict JsPath (List JsPath) → Type 0
IsUnlinked p = All (λ (t, qs). has_link p qs ≡ false)

target_of-insert :
    (p real : JsPath) (qs : List JsPath) (d : Dict JsPath (List JsPath))
    → IsUnlinked p d
    → target_of p (insert real (p ∷ qs) d) ≡ some real
unfolding target_of insert
target_of-insert p real qs [] u = ground (arith, ==_refl p)
target_of-insert p real qs ((t, ts) ∷ d) (free, u) =
    ground (arith, ==_refl p, target_of-insert p real qs d u)

drop_link-free : (p : JsPath) (qs : List JsPath) → has_link p qs ≡ false → drop_link p qs ≡ qs
unfolding drop_link
drop_link-free p [] h = refl
drop_link-free p (q ∷ qs) h = ground (arith, drop_link-free p qs)

drop_link-cons : (p : JsPath) (qs : List JsPath) → has_link p qs ≡ false → drop_link p (p ∷ qs) ≡ qs
unfolding drop_link
drop_link-cons p qs h = ground (arith, ==_refl p, drop_link-free p qs h)

add_link-free : (p : JsPath) (qs : List JsPath) → has_link p qs ≡ false → add_link p qs ≡ p ∷ qs
unfolding add_link
add_link-free p qs h = rw h refl

lookup-IsUnlinked :
    (p t : JsPath) (qs : List JsPath) (d : Dict JsPath (List JsPath))
    → IsUnlinked p d
    → lookup t d ≡ some qs
    → has_link p qs ≡ false
unfolding lookup
lookup-IsUnlinked p t qs [] u h = cc
lookup-IsUnlinked p t qs ((r, rs) ∷ d) (free, u) h = ground (arith, lookup-IsUnlinked p t qs d u)

lookup-here :
    (t : JsPath) (qs : List JsPath) (d : Dict JsPath (List JsPath))
    → lookup t (insert t qs d) ≡ some qs
lookup-here t qs d = ground (arith, lookup-insert t t qs d, ==_refl t)

undone-erase :
    (t real : JsPath) (ps : List JsPath) (d : Dict JsPath (List JsPath))
    → lookup real d ≡ none
    → lookup t (erase real (insert real ps d)) ≡ lookup t d
undone-erase t real ps d h =
    ground (arith, lookup-erase t real (insert real ps d), lookup-insert t real ps d)

undone-insert :
    (t real : JsPath) (qs ps : List JsPath) (d : Dict JsPath (List JsPath))
    → lookup real d ≡ some qs
    → lookup t (insert real qs (insert real ps d)) ≡ lookup t d
undone-insert t real qs ps d h =
    ground (arith, lookup-insert t real qs (insert real ps d), lookup-insert t real ps d)

module _ (p real : JsPath) (s : Links) (open_ : s.is_closed ≡ false)
    (u : IsUnlinked p s.targets) where
  remove-set_target :
      (qs : List JsPath)
      → has_link p qs ≡ false
      → remove p (set_target real (p ∷ qs) s) ≡ (
          if is_empty qs
          then record s { targets = erase real (insert real (p ∷ qs) s.targets) }
          else record s { targets = insert real qs (insert real (p ∷ qs) s.targets) })
  unfolding remove
  remove-set_target qs free =
      simp
        (
          open_,
          target_of-insert p real qs s.targets u,
          lookup-here real (p ∷ qs) s.targets,
          drop_link-cons p qs free,
        )
        refl

  undone-none :
      (t : JsPath)
      → lookup real s.targets ≡ none
      → lookup t (remove p (set_target real (p ∷ []) s)).targets ≡ lookup t s.targets
  undone-none t h = rw (remove-set_target [] refl) (undone-erase t real (p ∷ []) s.targets h)

  undone-some :
      (t : JsPath) (qs : List JsPath)
      → qs ≢ []
      → lookup real s.targets ≡ some qs
      → lookup t (remove p (set_target real (add_link p qs) s)).targets ≡ lookup t s.targets
  undone-some t [] some_link h = absurd (some_link refl)
  undone-some t (q ∷ qs) some_link h =
      let free = lookup-IsUnlinked p real (q ∷ qs) s.targets u h in
      rw (add_link-free p (q ∷ qs) free, remove-set_target (q ∷ qs) free)
        (undone-insert t real (q ∷ qs) (p ∷ q ∷ qs) s.targets h)

if_no {ℓ} : {A : Type ℓ} (b : Bool) (x y : A) → b ≡ false → (if b then x else y) ≡ y
if_no true x y h = cc
if_no false x y h = refl

add_symlink-linked :
    (c : Calls) (p real : JsPath) (n : ℤ) (s : Links)
    → s.is_closed ≡ false
    → c.to_real_path p ≡ right real
    → (starts_with p real && not (p == real)) ≡ false
    → add_symlink c p n s ≡ linked c real p n s (lookup real s.targets)
unfolding add_symlink
add_symlink-linked c p real n s open_ found no_loop =
    if_no s.is_closed (right tt, s) (resolved c p n s (c.to_real_path p)) open_
    ∙ ap (resolved c p n s) found
    ∙ if_no (starts_with p real && not (p == real)) (left (file_system_loop p), s)
        (linked c real p n s (lookup real s.targets)) no_loop

linked-target :
    (c : Calls) (p real : JsPath) (n : ℤ) (s : Links) (o : Option (List JsPath))
    → lookup real s.targets ≡ o
    → c.register real n ≡ right true
    → IsUnlinked p s.targets
    → ((linked c real p n s o).0 ≡ right tt)
      × (target_of p (linked c real p n s o).1.targets ≡ some real)
linked-target c p real n s none r watched u =
    rw watched (refl, target_of-insert p real [] s.targets u)
linked-target c p real n s (some qs) r watched u = (
  refl,
  ap (λ (ps : List JsPath). target_of p (insert real ps s.targets))
        (add_link-free p qs (lookup-IsUnlinked p real qs s.targets u r))
      ∙ target_of-insert p real qs s.targets u,
)

-- A link that can be added is one of its real path afterwards.
pub add_symlink-target_of :
    (c : Calls) (p real : JsPath) (n : ℤ) (s : Links)
    → s.is_closed ≡ false
    → c.to_real_path p ≡ right real
    → (starts_with p real && not (p == real)) ≡ false
    → c.register real n ≡ right true
    → IsUnlinked p s.targets
    → ((add_symlink c p n s).0 ≡ right tt)
      × (target_of p (add_symlink c p n s).1.targets ≡ some real)
add_symlink-target_of c p real n s open_ found no_loop watched u =
    rw (add_symlink-linked c p real n s open_ found no_loop)
      (linked-target c p real n s (lookup real s.targets) refl watched u)

-- In a watcher that is not closed and keeps no target without a link, take a link that is under no
-- target, whose real path is no loop and can be watched. Adding the link and removing it leaves every target with the links that it had.
pub remove-add_symlink :
    (c : Calls) (p real t : JsPath) (n : ℤ) (s : Links)
    → s.is_closed ≡ false
    → c.to_real_path p ≡ right real
    → (starts_with p real && not (p == real)) ≡ false
    → c.register real n ≡ right true
    → IsUnlinked p s.targets
    → IsUsed s
    → lookup t (remove p (add_symlink c p n s).1).targets ≡ lookup t s.targets
remove-add_symlink c p real t n s open_ found no_loop watched u used =
    elim (Option-cases (lookup real s.targets)) [
      | inl r ↦
          ap (λ (o : Ended). lookup t (remove p o.1).targets)
            (add_symlink-linked c p real n s open_ found no_loop
              ∙ ap (linked c real p n s) r
              ∙ ap (registered real p s) watched)
          ∙ undone-none p real s open_ u t r
      | inr (qs, r) ↦
          ap (λ (o : Ended). lookup t (remove p o.1).targets)
            (add_symlink-linked c p real n s open_ found no_loop ∙ ap (linked c real p n s) r)
          ∙ undone-some p real s open_ u t qs (λ e. used real (r ∙ ap some e)) r
    ]

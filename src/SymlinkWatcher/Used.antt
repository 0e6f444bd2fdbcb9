-- ===== src/SymlinkWatcher/Used.antt =====
-- Targets and the links that lead to them.
use file_tree_views.Base.{
  ◌≢◌, refl, Bool, true, false, not, ◌&&◌, Option, none, some, List, [], ◌∷◌, str_eq, ◌==◌,
  if◌then◌else◌, arith,
}
use file_tree_views.Base.Int.{ℤ}
use file_tree_views.Base.Dict.{lookup, erase, lookup-insert, lookup-erase}
use file_tree_views.Either.{Either, left, right, IoException, file_system_loop}
use file_tree_views.Path.{JsPath, starts_with}
use file_tree_views.SymlinkWatcher.{
  Calls, Links, add_link, drop_link, set_target, Ended, registered, linked, resolved, add_symlink,
  target_of, is_empty, shrunk, removed_from, remove, close,
}

abbrev pub IsUsed : Links → Type 0
IsUsed s = (t : JsPath) → lookup t s.targets ≢ some []

abbrev OneUsed : Option (List JsPath) → Type 0
OneUsed o = o ≢ some []

if_used :
    (b : Bool) (o r : Option (List JsPath)) → OneUsed o → OneUsed r → OneUsed (if b then o else r)
if_used true o r h k = h
if_used false o r h k = k

set_target-IsUsed :
    (t q : JsPath) (qs : List JsPath) (s : Links) → IsUsed s → IsUsed (set_target t (q ∷ qs) s)
set_target-IsUsed t q qs s used r =
    rw (lookup-insert r t (q ∷ qs) s.targets)
      (if_used (r == t) (some (q ∷ qs)) (lookup r s.targets) (λ e. cc) (used r))

erase-IsUsed :
    (t : JsPath) (s : Links) → IsUsed s → IsUsed (record s { targets = erase t s.targets })
erase-IsUsed t s used r =
    rw (lookup-erase r t s.targets) (if_used (r == t) none (lookup r s.targets) (λ e. cc) (used r))

keep-IsUsed :
    (t : JsPath) (qs : List JsPath) (s : Links) → qs ≢ [] → IsUsed s → IsUsed (set_target t qs s)
keep-IsUsed t [] s h used = absurd (h refl)
keep-IsUsed t (q ∷ qs) s h used = set_target-IsUsed t q qs s used

add_link-some : (p : JsPath) (qs : List JsPath) → add_link p qs ≢ []
unfolding add_link
add_link-some p [] e = cc
add_link-some p (q ∷ qs) e = ground arith

registered-IsUsed :
    (real p : JsPath) (s : Links) (o : Either IoException Bool)
    → IsUsed s
    → IsUsed (registered real p s o).1
registered-IsUsed real p s (left x) used = used
registered-IsUsed real p s (right true) used = set_target-IsUsed real p [] s used
registered-IsUsed real p s (right false) used = used

linked-IsUsed :
    (c : Calls) (real p : JsPath) (n : ℤ) (s : Links) (o : Option (List JsPath))
    → IsUsed s
    → IsUsed (linked c real p n s o).1
linked-IsUsed c real p n s none used = registered-IsUsed real p s (c.register real n) used
linked-IsUsed c real p n s (some qs) used =
    keep-IsUsed real (add_link p qs) s (add_link-some p qs) used

if_ended : (b : Bool) (x y : Ended) → IsUsed x.1 → IsUsed y.1 → IsUsed (if b then x else y).1
if_ended true x y h k = h
if_ended false x y h k = k

resolved-IsUsed :
    (c : Calls) (p : JsPath) (n : ℤ) (s : Links) (o : Either IoException JsPath)
    → IsUsed s
    → IsUsed (resolved c p n s o).1
resolved-IsUsed c p n s (left x) used = used
resolved-IsUsed c p n s (right real) used =
    if_ended (starts_with p real && not (p == real)) (left (file_system_loop p), s)
      (linked c real p n s (lookup real s.targets)) used
      (linked-IsUsed c real p n s (lookup real s.targets) used)

if_links : (b : Bool) (x y : Links) → IsUsed x → IsUsed y → IsUsed (if b then x else y)
if_links true x y h k = h
if_links false x y h k = k

shrink-IsUsed :
    (t : JsPath) (qs : List JsPath) (s : Links)
    → IsUsed s
    → IsUsed (if is_empty qs then record s { targets = erase t s.targets } else set_target t qs s)
shrink-IsUsed t [] s used = erase-IsUsed t s used
shrink-IsUsed t (q ∷ qs) s used = set_target-IsUsed t q qs s used

shrunk-IsUsed :
    (p t : JsPath) (s : Links) (o : Option (List JsPath)) → IsUsed s → IsUsed (shrunk p t s o)
shrunk-IsUsed p t s none used = used
shrunk-IsUsed p t s (some qs) used = shrink-IsUsed t (drop_link p qs) s used

removed_from-IsUsed :
    (p : JsPath) (s : Links) (o : Option JsPath) → IsUsed s → IsUsed (removed_from p s o)
removed_from-IsUsed p s none used = used
removed_from-IsUsed p s (some t) used = shrunk-IsUsed p t s (lookup t s.targets) used

close-IsUsed : (s : Links) → IsUsed s → IsUsed (close s)
unfolding close lookup
close-IsUsed s used =
    if_links s.is_closed s (record { is_closed = true; targets = [] }) used (λ t e. cc)

-- Adding a link, whether it succeeds, is refused as a loop or throws, removing one, and closing keep
-- it true that no target is registered without a link to it.
pub add_symlink-remove-IsUsed :
    (c : Calls) (p : JsPath) (n : ℤ) (s : Links)
    → IsUsed s
    → IsUsed (add_symlink c p n s).1 × IsUsed (remove p s) × IsUsed (close s)
unfolding add_symlink remove
add_symlink-remove-IsUsed c p n s used = (
  if_ended s.is_closed (right tt, s) (resolved c p n s (c.to_real_path p)) used
      (resolved-IsUsed c p n s (c.to_real_path p) used),
  if_links s.is_closed s (removed_from p s (target_of p s.targets)) used
      (removed_from-IsUsed p s (target_of p s.targets) used),
  close-IsUsed s used,
)

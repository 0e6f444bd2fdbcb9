-- ===== src/Path/Prefix.antt =====
-- What `startsWith` decides, beside "lies under".
use file_tree_views.Base.{
  ◌≡◌, refl, sym, ◌∙◌, ap, ◌↔◌, true, [], ◌++◌, Str, ==_refl, ==→≡, str_eq, length, drop,
  take-append, take-append-drop,
}
use file_tree_views.Path.{JsPath, starts_with}
use mathlib.Core.List.{append_assoc, append-nil}

-- A path starts with another exactly when its text is that text followed by some text.
pub starts_with_iff : (p q : JsPath) → (starts_with p q ≡ true) ↔ ((r : Str) × (p ≡ q ++ r))
unfolding starts_with
starts_with_iff p q = (
  λ h. (
    drop (length q) p,
    sym (take-append-drop (length q) p) ∙ ap (λ s. s ++ drop (length q) p) (==→≡ _ _ h),
  ),
  λ (r, e). rw (e, take-append q r) (==_refl q),
)

pub starts_with-append : (q r : Str) → starts_with (q ++ r) q ≡ true
starts_with-append q r = (starts_with_iff (q ++ r) q).1 (r, refl)

pub starts_with_refl : (p : JsPath) → starts_with p p ≡ true
starts_with_refl p = (starts_with_iff p p).1 ([], sym (append-nil p))

pub starts_with_trans :
    (p q r : JsPath) → starts_with p q ≡ true → starts_with q r ≡ true → starts_with p r ≡ true
starts_with_trans p q r h k =
    let (s, e) = (starts_with_iff p q).0 h in
    let (t, f) = (starts_with_iff q r).0 k in
    (starts_with_iff p r).1 (t ++ s, e ∙ ap (λ u. u ++ s) f ∙ append_assoc r t s)

-- ===== src/FileTreeView/Filtered.antt =====
-- `list` with a filter, beside `list` without one.
use file_tree_views.Base.{
  ℕ, zero, suc, ◌≡◌, refl, ◌∙◌, ap, Bool, true, false, List, [], ◌∷◌, ◌++◌, Str, keep, arith,
  if◌then◌else◌, Bool-cases, inl, inr,
}
use file_tree_views.Base.Int.{ℤ, pos, leb_ℤ}
use file_tree_views.Either.{Either, left, right, IoException, all_pass}
use file_tree_views.Path.{JsPath}
use file_tree_views.TypedPath.{TypedPath}
use file_tree_views.FileTreeView.Steps.{
  State, Outcome, done, threw, exhausted, M, and_then, ◌>>=◌, pure, call, catching, clearing,
  caught, cleared,
}
use file_tree_views.FileTreeView.Listing.{
  Lister, visit, offer, list_subdirectory, directories_loop, files_loop, enter_link, list_link,
  links_loop, list_one, fill_results,
}
use file_tree_views.FileTreeView.{list}

keep-append {ℓ} :
    {A : Type ℓ} (f : A → Bool) (xs ys : List A) → keep f (xs ++ ys) ≡ keep f xs ++ keep f ys
unfolding keep
keep-append f [] ys = refl
keep-append f (x ∷ xs) ys = ground (arith, keep-append f xs ys)

module _ (f : TypedPath → Bool) where
  abbrev pub selected : State → State
  selected s = record s { result = keep f s.result }

  -- An outcome with its results selected.
  abbrev pub select : {A : Type 0} → Outcome A → Outcome A
  select (done a s) = done a (selected s)
  select (threw x s) = threw x (selected s)
  select exhausted = exhausted

  -- The first step does on the selected results what the second does on all.
  Follows : {A : Type 0} → M A → M A → Type 0
  Follows m n = (s : State) → m (selected s) ≡ select (n s)

  Follows-pure : {A : Type 0} (a : A) → Follows (pure a) (pure a)
  unfolding Follows
  Follows-pure a s = refl

  Follows-call : {A : Type 0} (e : Either IoException A) → Follows (call e) (call e)
  unfolding Follows
  Follows-call (left x) s = refl
  Follows-call (right a) s = refl

  and_then-select :
      {A B : Type 0} (k l : A → M B) (o : Outcome A)
      → ((a : A) → Follows (k a) (l a))
      → and_then (select o) k ≡ select (and_then o l)
  unfolding Follows
  and_then-select k l (done a s) h = h a s
  and_then-select k l (threw x s) h = refl
  and_then-select k l exhausted h = refl

  Follows-bind :
      {A B : Type 0} (m n : M A) (k l : A → M B)
      → Follows m n
      → ((a : A) → Follows (k a) (l a))
      → Follows (m >>= k) (n >>= l)
  unfolding Follows
  Follows-bind m n k l h g s = ap (λ o. and_then o k) (h s) ∙ and_then-select k l (n s) g

  Follows-if :
      {A : Type 0} (b : Bool) (m n k l : M A)
      → Follows m n
      → Follows k l
      → Follows (if b then m else k) (if b then n else l)
  unfolding Follows
  Follows-if true m n k l h g = h
  Follows-if false m n k l h g = g

  Follows-visit : (p : JsPath) → Follows (visit p) (visit p)
  unfolding Follows visit
  Follows-visit p s = ground arith

  keep-offered :
      (t : TypedPath) (ts : List TypedPath)
      → keep f (ts ++ t ∷ []) ≡ (if f t then keep f ts ++ t ∷ [] else keep f ts)
  unfolding keep
  keep-offered t [] = ground arith
  keep-offered t (x ∷ xs) = ground (arith, keep-offered t xs)

  Follows-offer : (t : TypedPath) → Follows (offer f t) (offer all_pass t)
  unfolding Follows offer
  Follows-offer t s = ground (arith, keep-offered t s.result)

  caught-select :
      (ignore : Bool) (o : Outcome (Unit {0})) → caught ignore (select o) ≡ select (caught ignore o)
  caught-select true (done a s) = refl
  caught-select true (threw x s) = refl
  caught-select true exhausted = refl
  caught-select false o = refl

  cleared-select : (o : Outcome (Unit {0})) → cleared (select o) ≡ select (cleared o)
  cleared-select (done a s) = refl
  cleared-select (threw x s) = refl
  cleared-select exhausted = refl

  Follows-guarded :
      (ignore : Bool) (m n : M (Unit {0}))
      → Follows m n
      → Follows (clearing (catching ignore m)) (clearing (catching ignore n))
  unfolding Follows
  Follows-guarded ignore m n h s =
      ap (λ o. cleared (caught ignore o)) (h s)
      ∙ ap cleared (caught-select ignore (n s))
      ∙ cleared-select (caught ignore (n s))

  module _ (L : Lister) (fill all : JsPath → ℤ → M (Unit {0}))
      (h : (p : JsPath) (d : ℤ) → Follows (fill p d) (all p d)) where
    directories_follow :
        (dir : JsPath) (depth : ℤ) (parts : List Str)
        → Follows
            (directories_loop L f fill dir depth parts)
            (directories_loop L all_pass all dir depth parts)
    unfolding directories_loop list_subdirectory
    directories_follow dir depth [] = Follows-pure tt
    directories_follow dir depth (part ∷ parts) =
        Follows-bind _ _ _ _
          (Follows-if _ _ _ _ _ (Follows-pure tt) (
            Follows-bind _ _ _ _ (Follows-offer _)
              (λ _. Follows-if _ _ _ _ _ (h _ _) (Follows-pure tt))))
          (λ _. directories_follow dir depth parts)

    files_follow :
        (dir : JsPath) (names : List Str)
        → Follows (files_loop L f fill dir names) (files_loop L all_pass all dir names)
    unfolding files_loop
    files_follow dir [] = Follows-pure tt
    files_follow dir (name ∷ names) =
        Follows-bind _ _ _ _ (Follows-offer _) (λ _. files_follow dir names)

    link-Follows :
        (dir : JsPath) (depth : ℤ) (name : Str)
        → Follows (list_link L f fill dir depth name) (list_link L all_pass all dir depth name)
    unfolding list_link enter_link
    link-Follows dir depth name = Follows-bind _ _ _ _ (Follows-call _) (λ kind.
        Follows-bind _ _ _ _ (Follows-offer _) (λ _.
          Follows-if _ _ _ _ _
            (Follows-bind _ _ _ _ (Follows-call _) (λ real.
              Follows-bind _ _ _ _ (Follows-visit real)
                (λ fresh. Follows-if fresh _ _ _ _ (h _ _) (Follows-pure tt))))
            (Follows-pure tt)))

    links_follow :
        (dir : JsPath) (depth : ℤ) (names : List Str)
        → Follows (links_loop L f fill dir depth names) (links_loop L all_pass all dir depth names)
    unfolding links_loop
    links_follow dir depth [] = Follows-pure tt
    links_follow dir depth (name ∷ names) =
        Follows-bind _ _ _ _ (link-Follows dir depth name) (λ _. links_follow dir depth names)

    list_one-Follows :
        (dir : JsPath) (depth : ℤ)
        → Follows (list_one L f fill dir depth) (list_one L all_pass all dir depth)
    unfolding list_one
    list_one-Follows dir depth = Follows-bind _ _ _ _ (Follows-call _) (λ results.
        Follows-bind _ _ _ _ (Follows-visit dir) (λ fresh.
          Follows-bind _ _ _ _ (directories_follow dir depth results.directories) (λ _.
            Follows-bind _ _ _ _ (files_follow dir results.files)
              (λ _. links_follow dir depth results.symlinks))))

  fill_results-Follows :
      (L : Lister) (fuel : ℕ) (dir : JsPath) (depth : ℤ)
      → Follows (fill_results L f fuel dir depth) (fill_results L all_pass fuel dir depth)
  unfolding Follows fill_results
  fill_results-Follows L zero dir depth s = refl
  fill_results-Follows L (suc fuel) dir depth s =
      Follows-guarded L.ignore_exceptions (list_one L f (fill_results L f fuel) dir depth)
        (list_one L all_pass (fill_results L all_pass fuel) dir depth)
        (list_one-Follows L (fill_results L f fuel) (fill_results L all_pass fuel)
          (fill_results-Follows L fuel) dir depth)
        s

-- For every file system, every lister, depth and fuel: listing with a filter gives just what
-- listing everything gives, with the results selected by the filter. That holds for a listing that
-- ends, for one that throws (with what it had found until then) and for one that runs out of fuel.
pub list-select :
    (L : Lister) (fuel : ℕ) (p : JsPath) (depth : ℤ) (f : TypedPath → Bool)
    → list L fuel p depth f ≡ select f (list L fuel p depth all_pass)
unfolding list keep Follows
list-select L fuel p depth f = elim (Bool-cases (leb_ℤ (pos 0) depth)) [
  | inl listed ↦
      rw listed (fill_results-Follows f L fuel p depth (record { visited = []; result = [] }))
  | inr only ↦ ground (arith, only)
]

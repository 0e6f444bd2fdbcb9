-- ===== src/DirectoryTree/Ordered.antt =====
-- `sort`, and the order of the callbacks.
use file_tree_views.Base.{
  ◌≡◌, refl, Bool, true, false, List, [], ◌∷◌, All, Str, arith, if◌then◌else◌, Bool-cases, inl, inr,
}
use mathlib.Core.List.{Perm}
use mathlib.Core.List.Perm
use file_tree_views.DirectoryTree.Sorting.{less, place, sort}

pub less_asym : (s t : Str) → less s t ≡ true → less t s ≡ false
unfolding less
less_asym [] [] h = refl
less_asym [] (d ∷ t) h = refl
less_asym (c ∷ s) [] h = cc
less_asym (c ∷ s) (d ∷ t) h = ground (arith, less_asym s t)

least_nil : (u : Str) → less u [] ≡ false
unfolding less
least_nil [] = refl
least_nil (c ∷ u) = refl

-- At most, read as "not after", is transitive.
pub less_trans : (s t u : Str) → less t s ≡ false → less u t ≡ false → less u s ≡ false
unfolding less
less_trans [] t u h k = least_nil u
less_trans (c ∷ s) [] u h k = cc
less_trans (c ∷ s) (d ∷ t) [] h k = cc
less_trans (c ∷ s) (d ∷ t) (e ∷ u) h k = ground (arith, less_trans s t u)

module _ {A : Type 0} (before : A → A → Bool) where
  -- No element must precede one that stands before it.
  abbrev pub IsOrdered : List A → Type 0
  IsOrdered [] = Unit
  IsOrdered (x ∷ xs) = All (λ y. before y x ≡ false) xs × IsOrdered xs

  pub place-All :
      (P : A → Type 0) (x : A) (xs : List A) → P x → All P xs → All P (place before x xs)
  unfolding place
  place-All P x [] h hs = (h, tt)
  place-All P x (y ∷ ys) h (hy, hs) = elim (Bool-cases (before y x)) [
    | inl e ↦ rw e (hy, place-All P x ys h hs)
    | inr e ↦ rw e (h, (hy, hs))
  ]

  pub sort-All : (P : A → Type 0) (xs : List A) → All P xs → All P (sort before xs)
  unfolding sort
  sort-All P [] h = tt
  sort-All P (x ∷ xs) (h, hs) = place-All P x (sort before xs) h (sort-All P xs hs)

  place-perm : (x : A) (xs : List A) → Perm (place before x xs) (x ∷ xs)
  unfolding place
  place-perm x [] = Perm.refl (x ∷ [])
  place-perm x (y ∷ ys) =
      perm_if (before y x) (Perm.trans (Perm.cons y (place-perm x ys)) (Perm.swap x y ys))
        (Perm.refl (x ∷ y ∷ ys))
    where
      perm_if :
          {xs ys zs : List A} (b : Bool) → Perm xs zs → Perm ys zs → Perm (if b then xs else ys) zs
      perm_if true h k = h
      perm_if false h k = k

  pub sort-perm : (xs : List A) → Perm (sort before xs) xs
  unfolding sort
  sort-perm [] = Perm.refl []
  sort-perm (x ∷ xs) = Perm.trans (place-perm x (sort before xs)) (Perm.cons x (sort-perm xs))

  module _ (asym : (x y : A) → before x y ≡ true → before y x ≡ false)
      (trans : (x y z : A) → before y x ≡ false → before z y ≡ false → before z x ≡ false) where
    after-All :
        (x y : A) (ys : List A)
        → before y x ≡ false
        → All (λ z. before z y ≡ false) ys
        → All (λ z. before z x ≡ false) ys
    after-All x y [] h hs = tt
    after-All x y (z ∷ zs) h (k, hs) = (trans x y z h k, after-All x y zs h hs)

    place-IsOrdered : (x : A) (xs : List A) → IsOrdered xs → IsOrdered (place before x xs)
    unfolding place
    place-IsOrdered x [] o = (tt, tt)
    place-IsOrdered x (y ∷ ys) (hy, o) = elim (Bool-cases (before y x)) [
      | inl e ↦
          rw e (place-All (λ z. before z y ≡ false) x ys (asym y x e) hy, place-IsOrdered x ys o)
      | inr e ↦ rw e ((e, after-All x y ys e hy), (hy, o))
    ]

    pub sort-IsOrdered : (xs : List A) → IsOrdered (sort before xs)
    unfolding sort
    sort-IsOrdered [] = tt
    sort-IsOrdered (x ∷ xs) = place-IsOrdered x (sort before xs) (sort-IsOrdered xs)

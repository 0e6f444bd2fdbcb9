-- ===== src/DirectoryTree/Specific.antt =====
-- What `find` gives among several directories that hold a path.
use file_tree_views.Base.{
  ◌≡◌, refl, Str, Bool, true, false, Option, none, some, List, [], ◌∷◌, All, Any, ◌⊎◌, inl, inr,
  Bool-cases, arith, if◌then◌else◌,
}
use file_tree_views.Base.Dict.{Dict}
use file_tree_views.Path.{NodePath, JsPath}
use file_tree_views.CachedDirectory.Tree.{Directory, dir_path}
use file_tree_views.DirectoryTree.Sorting.{less, place, sort}
use file_tree_views.DirectoryTree.Ordered.{less_asym, less_trans, IsOrdered, sort-IsOrdered}
use file_tree_views.DirectoryTree.Lookup.{covers, first_covering, descends, find}

less_self : (s : Str) → less s s ≡ false
unfolding less
less_self [] = refl
less_self (c ∷ s) = ground (arith, less_self s)

module _ {A : Type 0} (before : A → A → Bool) (P : A → Type 0) where
  back_if :
      (b : Bool) (x y : A) (ys zs : List A)
      → (All P zs → P x × All P ys)
      → All P (if b then y ∷ zs else x ∷ y ∷ ys)
      → P x × All P (y ∷ ys)
  back_if true x y ys zs back (hy, h) = let (hx, hs) = back h in (hx, (hy, hs))
  back_if false x y ys zs back (hx, hs) = (hx, hs)

  -- What holds of the elements of a sorted list held of them before.
  place_back : (x : A) (xs : List A) → All P (place before x xs) → P x × All P xs
  unfolding place
  place_back x [] (h, hs) = (h, tt)
  place_back x (y ∷ ys) h = back_if (before y x) x y ys (place before x ys) (place_back x ys) h

  pub sort_back : (xs : List A) → All P (sort before xs) → All P xs
  unfolding sort
  sort_back [] h = tt
  sort_back (x ∷ xs) h = let (hx, hs) = place_back x (sort before xs) h in (hx, sort_back xs hs)

  Any-if :
      (b : Bool) (x y : A) (ys zs : List A)
      → (Any P zs → P x ⊎ Any P ys)
      → Any P (if b then y ∷ zs else x ∷ y ∷ ys)
      → P x ⊎ Any P (y ∷ ys)
  Any-if true x y ys zs back (inl h) = inr (inl h)
  Any-if true x y ys zs back (inr h) = elim (back h) [ inl i ↦ inl i | inr i ↦ inr (inr i) ]
  Any-if false x y ys zs back h = h

  Any-place : (x : A) (xs : List A) → Any P (place before x xs) → P x ⊎ Any P xs
  unfolding place
  Any-place x [] h = h
  Any-place x (y ∷ ys) h = Any-if (before y x) x y ys (place before x ys) (Any-place x ys) h

  Any-sort : (xs : List A) → Any P (sort before xs) → Any P xs
  unfolding sort
  Any-sort [] h = h
  Any-sort (x ∷ xs) h = elim (Any-place x (sort before xs) h) [
    | inl i ↦ inl i
    | inr i ↦ inr (Any-sort xs i)
  ]

module _ (node : NodePath) {T : Type 0} (p : JsPath) where
  -- The answer is one of the directories and holds the path, and no directory that holds it has a greater path.
  abbrev pub IsMostSpecific : Dict JsPath (Directory T) → Option (JsPath × Directory T) → Type 0
  IsMostSpecific ds none = All (λ (k, d). covers node p d ≡ false) ds
  IsMostSpecific ds (some (k, d)) =
      Any (λ e. e ≡ (k, d)) ds
      × (covers node p d ≡ true)
      × All (λ (l, e). covers node p e ≡ true → less (dir_path d) (dir_path e) ≡ false) ds

  skipped :
      (k : JsPath) (d : Directory T) (ds : Dict JsPath (Directory T))
      (o : Option (JsPath × Directory T))
      → covers node p d ≡ false
      → IsMostSpecific ds o
      → IsMostSpecific ((k, d) ∷ ds) o
  skipped k d ds none out h = (out, h)
  skipped k d ds (some (l, e)) out (one, holding, h) = (inr one, holding, (λ holds. cc, h))

  weaken :
      (d : Directory T) (ds : Dict JsPath (Directory T))
      → All (λ (l, e). less (dir_path d) (dir_path e) ≡ false) ds
      → All (λ (l, e). covers node p e ≡ true → less (dir_path d) (dir_path e) ≡ false) ds
  weaken d [] h = tt
  weaken d ((l, e) ∷ ds) (here, h) = (λ holds. here, weaken d ds h)

  first_covering-IsMostSpecific :
      (ds : Dict JsPath (Directory T))
      → IsOrdered (descends node) ds
      → IsMostSpecific ds (first_covering node p ds)
  unfolding first_covering
  first_covering-IsMostSpecific [] o = tt
  first_covering-IsMostSpecific ((k, d) ∷ ds) (above, o) = elim (Bool-cases (covers node p d)) [
    | inl e ↦ rw e (inl refl, e, (λ holds. less_self (dir_path d), weaken d ds above))
    | inr e ↦
        rw e (skipped k d ds (first_covering node p ds) e (first_covering-IsMostSpecific ds o))
  ]

  back :
      (ds : Dict JsPath (Directory T)) (o : Option (JsPath × Directory T))
      → IsMostSpecific (sort (descends node) ds) o
      → IsMostSpecific ds o
  back ds none h = sort_back (descends node) (λ (k, d). covers node p d ≡ false) ds h
  back ds (some (k, d)) (one, holding, h) = (
    Any-sort (descends node) (λ e. e ≡ (k, d)) ds one,
    holding,
    sort_back (descends node)
        (λ (l, e). covers node p e ≡ true → less (dir_path d) (dir_path e) ≡ false) ds h,
  )

  -- `find` gives nothing exactly when no cached directory holds the path. What it gives is one of the
  -- cached directories, under its key, that holds the path, and no cached directory that holds it has a path that comes later in the order of texts, as the path
  -- of a directory below does.
  pub find-IsMostSpecific : (ds : Dict JsPath (Directory T)) → IsMostSpecific ds (find node p ds)
  unfolding find
  find-IsMostSpecific ds = back ds (first_covering node p (sort (descends node) ds)) (
      first_covering-IsMostSpecific (sort (descends node) ds) (
        sort-IsOrdered (descends node) (λ (k, d) (l, e). less_asym (dir_path e) (dir_path d))
          (λ (k, d) (l, e) (m, f) h i. less_trans (dir_path f) (dir_path e) (dir_path d) i h) ds))

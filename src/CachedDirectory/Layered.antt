-- ===== src/CachedDirectory/Layered.antt =====
-- The depths of the directories that `init` makes.
use file_tree_views.Base.{
  ◌≡◌, refl, ap, ◌∙◌, sym, subst, ◌⊎◌, ℕ, zero, suc, Bool, true, false, not, ◌&&◌, ◌||◌, List, [],
  ◌∷◌, str_eq, ◌==◌, if◌then◌else◌, arith,
}
use file_tree_views.Base.Int.{
  ℤ, pos, negsuc, ◌≤ℤ◌, ◌<ℤ◌, ◌+ℤ◌, ltb_ℤ, leb_ℤ, max_value, to_int32_fits,
}
use file_tree_views.Either.{Either, left, right, IoException}
use file_tree_views.Path.{JsPath}
use file_tree_views.TypedPath.{TypedPath, expanded}
use file_tree_views.CachedDirectory.Tree.{
  Setting, Directory, directory, Subdirectories, no_subs, sub, depth_of, dir_path, put_sub,
  new_directory, subdirectory_depth, is_loop,
}
use file_tree_views.CachedDirectory.Scan.{
  Scanned, filled, failed, exhausted, then_scan, put_file, put_directory, scanned_child, scan_file,
  scan_files, scan_listing, close, init,
}

-- A depth that a subdirectory may have in a directory of the depth `m`.
abbrev pub IsBelow : ℤ → ℤ → Type 0
IsBelow m k = (pos 0 <ℤ m) × (negsuc 0 ≤ℤ k) × ((k <ℤ m) ⊎ ((m ≡ max_value) × (k ≡ max_value)))

mutual
  -- Every directory of the tree has a depth that its parent's allows.
  pub IsLayered : {T : Type 0} → Directory T → Type 0
  IsLayered (directory e m files subs) = AreLayered m subs

  pub AreLayered : {T : Type 0} → ℤ → Subdirectories T → Type 0
  AreLayered m no_subs = Unit
  AreLayered m (sub p d subs) = IsBelow m (depth_of d) × IsLayered d × AreLayered m subs

subdirectory_depth-IsBelow :
    (m : ℤ)
    → ltb_ℤ (pos 0) m ≡ true
    → m ≤ℤ max_value
    → IsBelow m (subdirectory_depth m) × (subdirectory_depth m ≤ℤ max_value)
unfolding subdirectory_depth
subdirectory_depth-IsBelow m h u = ground (arith, to_int32_fits (negsuc 0 +ℤ m))

least-IsBelow : (m : ℤ) → ltb_ℤ (pos 0) m ≡ true → IsBelow m (negsuc 0)
least-IsBelow m h = ground arith

second_true : (a b : Bool) → (a && b) ≡ true → b ≡ true
second_true a b h = ground arith

module _ {T : Type 0} where
  -- The tree that a step leaves, of the depth `m`; of a step without fuel nothing is said.
  pub EndsLayered : ℤ → Scanned T → Type 0
  EndsLayered m (filled d) = (depth_of d ≡ m) × IsLayered d
  EndsLayered m (failed x d) = (depth_of d ≡ m) × IsLayered d
  EndsLayered m exhausted = Unit

  put_if :
      (b : Bool) (m : ℤ) (p q : JsPath) (d e : Directory T) (subs rest : Subdirectories T)
      → AreLayered m (sub p d subs)
      → AreLayered m (sub q e rest)
      → AreLayered m (if b then sub p d subs else sub q e rest)
  put_if true m p q d e subs rest h k = h
  put_if false m p q d e subs rest h k = k

  put_sub-AreLayered :
      (m : ℤ) (p : JsPath) (d : Directory T) (subs : Subdirectories T)
      → IsBelow m (depth_of d)
      → IsLayered d
      → AreLayered m subs
      → AreLayered m (put_sub p d subs)
  unfolding put_sub IsLayered
  put_sub-AreLayered m p d no_subs b l h = (b, l, tt)
  put_sub-AreLayered m p d (sub q e subs) b l (c, k, h) =
      put_if (p == q) m p q d e subs (put_sub p d subs) (b, l, h)
        (c, k, put_sub-AreLayered m p d subs b l h)

  EndsLayered-if :
      (m : ℤ) (b : Bool) (s r : Scanned T)
      → (b ≡ true → EndsLayered m s)
      → EndsLayered m r
      → EndsLayered m (if b then s else r)
  EndsLayered-if m true s r f g = f refl
  EndsLayered-if m false s r f g = g

  depth_of-EndsLayered : (m : ℤ) (d : Directory T) → EndsLayered m (filled d) → depth_of d ≡ m
  unfolding EndsLayered
  depth_of-EndsLayered m d h = h.0

  new_directory-depth : (c : Setting T) (t : TypedPath) (n : ℤ) → depth_of (new_directory c t n) ≡ n
  unfolding new_directory
  new_directory-depth c t n = refl

  new_directory-IsLayered :
      (c : Setting T) (t : TypedPath) (n : ℤ) → IsLayered (new_directory c t n)
  unfolding new_directory IsLayered
  new_directory-IsLayered c t n = tt

  module _ (c : Setting T) (m : ℤ) where
    put_directory-EndsLayered :
        (t : TypedPath) (s d : Directory T)
        → IsBelow m (depth_of s)
        → IsLayered s
        → EndsLayered m (filled d)
        → EndsLayered m (filled (put_directory c t s d))
    unfolding EndsLayered put_directory IsLayered
    put_directory-EndsLayered t s (directory e k files subs) b l (same, h) =
        (same, put_sub-AreLayered k _ s subs (subst (λ x. IsBelow x (depth_of s)) (sym same) b) l h)

    put_file-EndsLayered :
        (t : TypedPath) (d : Directory T)
        → EndsLayered m (filled d)
        → EndsLayered m (filled (put_file c t d))
    unfolding EndsLayered put_file IsLayered
    put_file-EndsLayered t (directory e k files subs) h = h

    child-EndsLayered :
        (k : ℤ) (t : TypedPath) (d : Directory T) (s : Scanned T)
        → IsBelow m k
        → EndsLayered k s
        → EndsLayered m (filled d)
        → EndsLayered m (scanned_child c t d s)
    unfolding EndsLayered
    child-EndsLayered k t d (filled s) b (same, l) h =
        put_directory-EndsLayered t s d (subst (λ x. IsBelow m x) (sym same) b) l h
    child-EndsLayered k t d (failed x s) b (same, l) h =
        kept_if (c.file_exists (dir_path s)) (put_directory c t s d) d
          (put_directory-EndsLayered t s d (subst (λ x. IsBelow m x) (sym same) b) l h) h
      where
        kept_if :
            (b : Bool) (x y : Directory T)
            → EndsLayered m (filled x)
            → EndsLayered m (filled y)
            → EndsLayered m (filled (if b then x else y))
        kept_if true x y f g = f
        kept_if false x y f g = g
    child-EndsLayered k t d exhausted b l h = tt

    module _ (scan : Directory T → Scanned T) (fits : m ≤ℤ max_value)
        (children : (t : TypedPath) (k : ℤ)
          → k ≤ℤ max_value
          → EndsLayered k (scan (new_directory c t k))) where
      entered-EndsLayered :
          (t : TypedPath) (d : Directory T)
          → ltb_ℤ (pos 0) m ≡ true
          → EndsLayered m (filled d)
          → EndsLayered m (scanned_child c t d (scan (new_directory c t (subdirectory_depth m))))
      entered-EndsLayered t d deep h =
          let (b, u) = subdirectory_depth-IsBelow m deep fits in
          child-EndsLayered (subdirectory_depth m) t d _ b (children t (subdirectory_depth m) u) h

      scan_file-EndsLayered :
          (t : TypedPath) (d : Directory T)
          → EndsLayered m (filled d)
          → EndsLayered m (scan_file c scan t d)
      unfolding scan_file
      scan_file-EndsLayered t d h =
          let same = depth_of-EndsLayered m d h in
          EndsLayered-if m (t.is_directory && ltb_ℤ (pos 0) (depth_of d)) _
            (filled (put_file c t d))
            (λ e.
              let deep =
                ap (ltb_ℤ (pos 0)) (sym same)
                ∙ second_true t.is_directory (ltb_ℤ (pos 0) (depth_of d)) e in
              EndsLayered-if m
                (not t.is_symbolic_link || not (is_loop t.path (expanded c.real_path t)))
                (scanned_child c t d (scan (new_directory c t (subdirectory_depth (depth_of d)))))
                (filled (put_directory c t (new_directory c t (negsuc 0)) d))
                (λ _.
                  subst
                    (λ k.
                      EndsLayered m
                        (scanned_child c t d (scan (new_directory c t (subdirectory_depth k)))))
                    (sym same) (entered-EndsLayered t d deep h))
                (put_directory-EndsLayered t (new_directory c t (negsuc 0)) d
                  (subst (λ k. IsBelow m k) (sym (new_directory-depth c t (negsuc 0)))
                    (least-IsBelow m deep))
                  (new_directory-IsLayered c t (negsuc 0)) h))
            (put_file-EndsLayered t d h)

      then-EndsLayered :
          (k : Directory T → Scanned T) (s : Scanned T)
          → EndsLayered m s
          → ((d : Directory T) → EndsLayered m (filled d) → EndsLayered m (k d))
          → EndsLayered m (then_scan c s k)
      then-EndsLayered k (filled d) h g = g d h
      then-EndsLayered k (failed x d) h g = h
      then-EndsLayered k exhausted h g = h

      scan_files-EndsLayered :
          (ts : List TypedPath) (d : Directory T)
          → EndsLayered m (filled d)
          → EndsLayered m (scan_files c scan ts d)
      unfolding scan_files
      scan_files-EndsLayered [] d h = h
      scan_files-EndsLayered (t ∷ ts) d h =
          then-EndsLayered (scan_files c scan ts) (scan_file c scan t d)
            (scan_file-EndsLayered t d h) (scan_files-EndsLayered ts)

      listing-EndsLayered :
          (r : Either IoException (List TypedPath)) (d : Directory T)
          → EndsLayered m (filled d)
          → EndsLayered m (scan_listing c scan r d)
      unfolding EndsLayered
      listing-EndsLayered (left x) d h = h
      listing-EndsLayered (right ts) d h = scan_files-EndsLayered ts d h

  close-EndsLayered :
      (c : Setting T) (m : ℤ) (d : Directory T)
      → depth_of d ≡ m
      → EndsLayered m (filled (close c d))
  unfolding EndsLayered close IsLayered
  close-EndsLayered c m (directory e k files subs) same = (same, tt)

  -- Let the depth of a directory be an `Int`. When its `init` ends or throws, the directory has kept its
  -- depth, and in what it then holds each subdirectory stands in a directory of a depth above zero and
  -- has itself a depth from -1 to below that one; only where that one has the depth
  -- `Integer.MAX_VALUE` may it have the same. A step without fuel is left out.
  pub init-EndsLayered :
      (c : Setting T) (m : ℤ) (fuel : ℕ) (d : Directory T)
      → depth_of d ≡ m
      → m ≤ℤ max_value
      → EndsLayered m (init c fuel d)
  unfolding init EndsLayered
  init-EndsLayered c m zero d same fits = tt
  init-EndsLayered c m (suc fuel) d same fits =
      EndsLayered-if m (leb_ℤ (pos 0) (depth_of d)) _ (filled (close c d))
        (λ _.
          listing-EndsLayered c m (init c fuel) fits
            (λ t k u. init-EndsLayered c k fuel (new_directory c t k) (new_directory-depth c t k) u)
            (c.view (dir_path d)) (close c d) (close-EndsLayered c m d same))
        (close-EndsLayered c m d same)

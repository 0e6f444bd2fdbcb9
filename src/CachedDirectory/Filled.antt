-- ===== src/CachedDirectory/Filled.antt =====
-- How much fuel `init` needs.
use file_tree_views.Base.{
  ℕ, zero, suc, ◌<◌, ◌≡◌, ◌≢◌, refl, subst, ◌∙◌, Bool, true, false, not, ◌&&◌, ◌||◌, List, [], ◌∷◌,
  arith, if◌then◌else◌,
}
use file_tree_views.Base.Int.{ℤ, pos, negsuc, ltb_ℤ, leb_ℤ, ◌+ℤ◌, to_int32_fits}
use file_tree_views.Either.{Either, left, right, IoException}
use file_tree_views.TypedPath.{TypedPath, expanded}
use file_tree_views.CachedDirectory.Tree.{
  Setting, Directory, directory, no_subs, depth_of, dir_path, new_directory, subdirectory_depth,
  is_loop,
}
use file_tree_views.CachedDirectory.Scan.{
  Scanned, filled, failed, exhausted, then_scan, put_file, put_directory, scanned_child, scan_file,
  scan_files, scan_listing, close, init,
}

subdirectory_depth_lem : (n : ℕ) → suc n < 2147483647 → subdirectory_depth (pos (suc n)) ≡ pos n
unfolding subdirectory_depth
subdirectory_depth_lem n h = ground (arith, to_int32_fits (negsuc 0 +ℤ pos (suc n)))

module _ {T : Type 0} where
  -- It ends or throws.
  Ends : Scanned T → Type 0
  Ends s = s ≢ exhausted

  Ends-filled : (d : Directory T) → Ends (filled d)
  unfolding Ends
  Ends-filled d e = cc

  Ends-failed : (x : IoException) (d : Directory T) → Ends (failed x d)
  unfolding Ends
  Ends-failed x d e = cc

  Ends-if : (b : Bool) (s r : Scanned T) → (b ≡ true → Ends s) → Ends r → Ends (if b then s else r)
  Ends-if true s r h k = h refl
  Ends-if false s r h k = k

  depth_of-new_directory :
      (c : Setting T) (t : TypedPath) (n : ℤ) → depth_of (new_directory c t n) ≡ n
  unfolding new_directory
  depth_of-new_directory c t n = refl

first_true : (a b : Bool) → (a && b) ≡ true → b ≡ true
first_true a b h = ground arith

module _ {T : Type 0} (c : Setting T) (scan : Directory T → Scanned T) (n : ℤ)
    (h : ltb_ℤ (pos 0) n ≡ true
      → (t : TypedPath) → Ends (scan (new_directory c t (subdirectory_depth n)))) where
  -- A step ends with a directory of the same depth.
  Same : Scanned T → Type 0
  Same (filled d) = depth_of d ≡ n
  Same (failed x d) = Unit
  Same exhausted = ⊥

  child-Same :
      (t : TypedPath) (d : Directory T) (s : Scanned T)
      → depth_of d ≡ n
      → Ends s
      → Same (scanned_child c t d s)
  unfolding Same Ends put_directory
  child-Same t (directory e m files subs) (filled s) same ends = same
  child-Same t (directory e m files subs) (failed x s) same ends = ground arith
  child-Same t d exhausted same ends = absurd (ends refl)

  Same-if : (b : Bool) (s r : Scanned T) → (b ≡ true → Same s) → Same r → Same (if b then s else r)
  Same-if true s r f g = f refl
  Same-if false s r f g = g

  filled-Same : (d : Directory T) → depth_of d ≡ n → Same (filled d)
  unfolding Same
  filled-Same d same = same

  put_directory-Same :
      (t : TypedPath) (s d : Directory T) → depth_of d ≡ n → Same (filled (put_directory c t s d))
  unfolding Same put_directory
  put_directory-Same t s (directory e m files subs) same = same

  put_file-Same :
      (t : TypedPath) (d : Directory T) → depth_of d ≡ n → Same (filled (put_file c t d))
  unfolding Same put_file
  put_file-Same t (directory e m files subs) same = same

  scan_file-Same : (t : TypedPath) (d : Directory T) → depth_of d ≡ n → Same (scan_file c scan t d)
  unfolding scan_file
  scan_file-Same t d same =
      Same-if (t.is_directory && ltb_ℤ (pos 0) (depth_of d)) _ (filled (put_file c t d))
        (λ e.
          Same-if (not t.is_symbolic_link || not (is_loop t.path (expanded c.real_path t)))
            (scanned_child c t d (scan (new_directory c t (subdirectory_depth (depth_of d)))))
            (filled (put_directory c t (new_directory c t (negsuc 0)) d))
            (λ _. child-Same t d (scan (new_directory c t (subdirectory_depth (depth_of d)))) same (
              rw same (
                h
                  (subst (λ m. ltb_ℤ (pos 0) m ≡ true) same
                    (first_true t.is_directory (ltb_ℤ (pos 0) (depth_of d)) e))
                  t)))
            (put_directory-Same t (new_directory c t (negsuc 0)) d same))
        (put_file-Same t d same)

  then-Same :
      (k : Directory T → Scanned T) (s : Scanned T)
      → Same s
      → ((d : Directory T) → depth_of d ≡ n → Same (k d))
      → Same (then_scan c s k)
  unfolding Same
  then-Same k (filled d) same g = g d same
  then-Same k (failed x d) same g = same
  then-Same k exhausted same g = same

  scan_files-Same :
      (ts : List TypedPath) (d : Directory T) → depth_of d ≡ n → Same (scan_files c scan ts d)
  unfolding scan_files
  scan_files-Same [] d same = filled-Same d same
  scan_files-Same (t ∷ ts) d same =
      then-Same (scan_files c scan ts) (scan_file c scan t d) (scan_file-Same t d same)
        (scan_files-Same ts)

  Same-Ends : (s : Scanned T) → Same s → Ends s
  unfolding Same
  Same-Ends (filled d) h = Ends-filled d
  Same-Ends (failed x d) h = Ends-failed x d
  Same-Ends exhausted h = absurd h

  listing-Ends :
      (l : Either IoException (List TypedPath)) (d : Directory T)
      → depth_of d ≡ n
      → Ends (scan_listing c scan l d)
  listing-Ends (left x) d same = Ends-failed x d
  listing-Ends (right ts) d same = Same-Ends (scan_files c scan ts d) (scan_files-Same ts d same)

init-Ends :
    {T : Type 0} (c : Setting T) (n fuel : ℕ) (d : Directory T)
    → depth_of d ≡ pos n
    → n < 2147483647
    → n < fuel
    → Ends (init c fuel d)
unfolding init close
init-Ends c n zero d same small more = absurd (omega arith)
init-Ends c zero (suc fuel) (directory e m files subs) same small more =
    Ends-if (leb_ℤ (pos 0) m) _ (filled (directory e m [] no_subs))
      (λ _.
        listing-Ends c (init c fuel) (pos 0) (λ no t. absurd (ground arith))
          (c.view (dir_path (directory e m files subs))) (directory e m [] no_subs) same)
      (Ends-filled (directory e m [] no_subs))
init-Ends c (suc n) (suc fuel) (directory e m files subs) same small more =
    Ends-if (leb_ℤ (pos 0) m) _ (filled (directory e m [] no_subs))
      (λ _.
        listing-Ends c (init c fuel) (pos (suc n))
          (λ _ t.
            init-Ends c n fuel (new_directory c t (subdirectory_depth (pos (suc n))))
              (depth_of-new_directory c t _ ∙ subdirectory_depth_lem n small) (omega arith)
              (omega arith))
          (c.view (dir_path (directory e m files subs))) (directory e m [] no_subs) same)
      (Ends-filled (directory e m [] no_subs))

-- With fuel above the depth, `init` of a directory of a depth from zero to below
-- `Integer.MAX_VALUE` never runs out of fuel, whatever the file system holds: it ends or throws.
pub init_ends :
    {T : Type 0} (c : Setting T) (n fuel : ℕ) (d : Directory T)
    → depth_of d ≡ pos n
    → n < 2147483647
    → n < fuel
    → init c fuel d ≢ exhausted
unfolding Ends
init_ends c n fuel d same small more = init-Ends c n fuel d same small more

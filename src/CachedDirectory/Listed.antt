-- ===== src/CachedDirectory/Listed.antt =====
-- `list` with a filter, beside `list` without one.
use file_tree_views.Base.{
  ℕ, zero, suc, ◌<◌, ◌≡◌, refl, sym, Bool, true, false, some, List, [], ◌∷◌, ◌++◌, arith,
  if◌then◌else◌, keep, ◌||◌,
}
use file_tree_views.Base.Int.{ℤ, pos, negsuc, ltb_ℤ, leb_ℤ, ◌+ℤ◌, to_int32, to_int32_fits}
use file_tree_views.Base.Dict.{Dict, values}
use file_tree_views.Either.{all_pass, right}
use file_tree_views.TypedPath.{TypedPath}
use file_tree_views.Path.{NodePath, JsPath}
use file_tree_views.Entry.{Entry, typed, resolve_entry}
use file_tree_views.CachedDirectory.Tree.{
  Directory, directory, Subdirectories, no_subs, sub, entry_of,
}
use file_tree_views.CachedDirectory.Finding.{
  admit, list_files, list_impl, list_subs, find, list, list_entries, own_typed_path,
}

-- No directory of the tree has a negative depth, which marks one that is not looked into.
unfoldable mutual
  pub IsDeep : {T : Type 0} → Directory T → Type 0
  IsDeep (directory e depth files subs) = (leb_ℤ (pos 0) depth ≡ true) × AreDeep subs

  pub AreDeep : {T : Type 0} → Subdirectories T → Type 0
  AreDeep no_subs = Unit
  AreDeep (sub p d subs) = IsDeep d × AreDeep subs

keep-nil {ℓ} : {A : Type ℓ} (p : A → Bool) → [] ≡ keep p []
unfolding keep
keep-nil p = refl

keep-append {ℓ} :
    {A : Type ℓ} (p : A → Bool) (xs ys : List A) → keep p (xs ++ ys) ≡ keep p xs ++ keep p ys
unfolding keep
keep-append p [] ys = refl
keep-append p (x ∷ xs) ys = ground (arith, keep-append p xs ys)

keep-admit {ℓ} : {A : Type ℓ} (p : A → Bool) (x : A) → admit p x ≡ keep p (admit all_pass x)
unfolding keep
keep-admit p x = refl

if-keep {ℓ} :
    {A : Type ℓ} (p : A → Bool) (b : Bool) (us xs ys : List A)
    → b ≡ false
    → xs ≡ keep p ys
    → (if b then us else xs) ≡ keep p (if b then us else ys)
if-keep p true us xs ys e h = cc
if-keep p false us xs ys e h = h

then-keep {ℓ} :
    {A : Type ℓ} (p : A → Bool) (b : Bool) (xs ys : List A)
    → xs ≡ keep p ys
    → (if b then xs else []) ≡ keep p (if b then ys else [])
then-keep p true xs ys h = h
then-keep p false xs ys h = keep-nil p

keep-append_eq {ℓ} :
    {A : Type ℓ} (p : A → Bool) (xs ys us vs : List A)
    → us ≡ keep p xs
    → vs ≡ keep p ys
    → us ++ vs ≡ keep p (xs ++ ys)
keep-append_eq p xs ys us vs h k = rw (h, k) (sym (keep-append p xs ys))

not_leaf :
    (depth : ℤ) (m : ℕ)
    → leb_ℤ (pos 0) depth ≡ true
    → (ltb_ℤ depth (pos 0) || ltb_ℤ (pos m) (pos 0)) ≡ false
not_leaf (pos n) m h = ground arith
not_leaf (negsuc n) m h = ground arith

less_one : (n : ℕ) → suc n < 2147483648 → to_int32 (negsuc 0 +ℤ pos (suc n)) ≡ pos n
less_one n h = ground (arith, to_int32_fits (negsuc 0 +ℤ pos (suc n)))

module _ (node : NodePath) {T R : Type 0} (accept : R → Bool) (transform : Entry T → R) where
  list_files-keep :
      (dir : JsPath) (es : List (Entry T))
      → list_files node accept transform dir es
        ≡ keep accept (list_files node all_pass transform dir es)
  unfolding list_files keep
  list_files-keep dir [] = refl
  list_files-keep dir (e ∷ es) = ground (arith, list_files-keep dir es)

  mutual
    unfolding list_impl list_subs IsDeep AreDeep

    list_impl-keep :
        (m : ℕ) (d : Directory T)
        → m < 2147483648
        → IsDeep d
        → list_impl node accept transform (pos m) d
          ≡ keep accept (list_impl node all_pass transform (pos m) d)
    list_impl-keep m (directory e depth files subs) small (deep, all) =
        if-keep accept (ltb_ℤ depth (pos 0) || ltb_ℤ (pos m) (pos 0)) (transform e ∷ []) _ _
          (not_leaf depth m deep)
          (keep-append_eq accept (list_files node all_pass transform (typed e).path (values files))
            _ _ _ (list_files-keep (typed e).path (values files))
            (list_subs-keep m (typed e).path subs small all))

    list_subs-keep :
        (m : ℕ) (dir : JsPath) (subs : Subdirectories T)
        → m < 2147483648
        → AreDeep subs
        → list_subs node accept transform (pos m) dir subs
          ≡ keep accept (list_subs node all_pass transform (pos m) dir subs)
    list_subs-keep m dir no_subs small all = keep-nil accept
    list_subs-keep zero dir (sub p d subs) small (deep, all) =
        keep-append_eq accept (transform (resolve_entry node dir (entry_of d)) ∷ []) _ _ _
          (keep-admit accept _) (list_subs-keep zero dir subs small all)
    list_subs-keep (suc m) dir (sub p d subs) small (deep, all) =
        keep-append_eq accept (transform (resolve_entry node dir (entry_of d)) ∷ []) _ _ _
          (keep-admit accept _)
          (keep-append_eq accept
            (if ltb_ℤ (pos 0) (pos (suc m))
              then list_impl node all_pass transform (to_int32 (negsuc 0 +ℤ pos (suc m))) d
              else [])
            _ _ _
            (then-keep accept (ltb_ℤ (pos 0) (pos (suc m)))
              (list_impl node accept transform (to_int32 (negsuc 0 +ℤ pos (suc m))) d)
              (list_impl node all_pass transform (to_int32 (negsuc 0 +ℤ pos (suc m))) d)
              (rw (less_one m small) (list_impl-keep m d (omega arith) deep)))
            (list_subs-keep (suc m) dir subs small all))

  -- A subdirectory of negative depth, such as one that a link would make a loop of, is listed twice
  -- where the depth allows to look below it: once if the filter accepts it, and once more whatever
  -- the filter says, without the path of its parent.
  pub list_subs-leaf :
      (m n : ℕ) (dir p : JsPath) (e : Entry T) (files : Dict JsPath (Entry T))
      (below rest : Subdirectories T)
      → list_subs node accept transform
          (pos (suc m))
          dir
          (sub p (directory e (negsuc n) files below) rest)
        ≡ admit accept (transform (resolve_entry node dir e))
          ++ transform e ∷ list_subs node accept transform (pos (suc m)) dir rest
  unfolding list_subs list_impl
  list_subs-leaf m n dir p e files below rest = ground arith

module _ (node : NodePath) {T : Type 0} where
  -- The filter of `list` takes out of the unfiltered list what it does not accept, and nothing else,
  -- at a depth of zero or more, where the path leads to a directory below which no depth is negative.
  pub list-keep :
      (m : ℕ) (p : JsPath) (accept : TypedPath → Bool) (d s : Directory T)
      → m < 2147483648
      → find node p d ≡ some (right s)
      → IsDeep s
      → list node p (pos m) accept d ≡ keep accept (list node p (pos m) all_pass d)
  unfolding list
  list-keep m p accept d s small found deep =
      rw found (list_impl-keep node accept (own_typed_path node) m s small deep)

  -- The same of `listEntries`.
  pub list_entries-keep :
      (m : ℕ) (p : JsPath) (accept : Entry T → Bool) (d s : Directory T)
      → m < 2147483648
      → find node p d ≡ some (right s)
      → IsDeep s
      → list_entries node p (pos m) accept d ≡ keep accept (list_entries node p (pos m) all_pass d)
  unfolding list_entries
  list_entries-keep m p accept d s small found deep =
      rw found (list_impl-keep node accept (λ e. e) m s small deep)

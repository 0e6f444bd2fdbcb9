-- ===== src/CachedDirectory/Removed.antt =====
-- `find` after `remove`, at the removed path and elsewhere.
use file_tree_views.Base.{
  ◌≡◌, refl, sym, ◌∙◌, ◌⊎◌, inl, inr, Option-cases, Bool, true, false, none, List, [], ◌∷◌, arith,
  str_eq, ◌==◌, ==_refl, ==→≡, if◌then◌else◌,
}
use file_tree_views.Base.Dict.{lookup, erase, lookup-erase}
use file_tree_views.Path.{NodePath, JsPath, parts, relativize, starts_with}
use file_tree_views.Entry.{typed}
use file_tree_views.CachedDirectory.Tree.{
  Directory, directory, entry_of, subs_of, files_of, dir_path, get_sub, put_sub, remove_sub,
  get_sub-put_sub, get_sub-remove_sub,
}
use file_tree_views.CachedDirectory.Finding.{find_impl, find}
use file_tree_views.CachedDirectory.Removal.{remove_name, remove_at, remove_impl, remove}
use file_tree_views.CachedDirectory.Found.{
  find_last_sub, find_last_file, find_next, find_next_none, remove_below, remove_nowhere,
  remove_at-gone,
}

-- Two lists of names that part at some name, so that neither lies below the other.
abbrev pub Apart : List JsPath → List JsPath → Type 0
Apart [] ys = ⊥
Apart (x ∷ xs) [] = ⊥
Apart (x ∷ xs) (y ∷ ys) = ((x == y) ≡ false) ⊎ (((x == y) ≡ true) × Apart xs ys)

if_same {ℓ} : {A : Type ℓ} {a : A} (b : Bool) → (if b then a else a) ≡ a
if_same true = refl
if_same false = refl

module _ (node : NodePath) {T : Type 0} where
  remove_at-entry_of :
      (p : JsPath) (ps : List JsPath) (d : Directory T)
      → entry_of (remove_at node p ps d).1 ≡ entry_of d
  unfolding remove_at remove_name
  remove_at-entry_of p [] (directory e depth files subs) = refl
  remove_at-entry_of p (q ∷ ps) (directory e depth files subs) =
      elim (Option-cases (get_sub p subs)) [
        | inl r ↦ rw (remove_nowhere node p q ps (directory e depth files subs) r) refl
        | inr (s, r) ↦ rw (remove_below node p q ps (directory e depth files subs) s r) refl
      ]

  -- Directories that agree on a name are searched alike below it.
  find_impl-same :
      (p : JsPath) (ps : List JsPath) (c d : Directory T)
      → dir_path c ≡ dir_path d
      → get_sub p (subs_of c) ≡ get_sub p (subs_of d)
      → lookup p (files_of c) ≡ lookup p (files_of d)
      → find_impl node (p ∷ ps) c ≡ find_impl node (p ∷ ps) d
  find_impl-same p [] c d e g l = elim (Option-cases (get_sub p (subs_of d))) [
    | inl r ↦ find_last_file node p c (g ∙ r) ∙ rw (e, l) (sym (find_last_file node p d r))
    | inr (s, r) ↦ find_last_sub node p c s (g ∙ r) ∙ sym (find_last_sub node p d s r)
  ]
  find_impl-same p (q ∷ ps) c d e g l = elim (Option-cases (get_sub p (subs_of d))) [
    | inl r ↦ find_next_none node p q ps c (g ∙ r) ∙ sym (find_next_none node p q ps d r)
    | inr (s, r) ↦ find_next node p q ps c s (g ∙ r) ∙ sym (find_next node p q ps d s r)
  ]

  other_name :
      (x y : JsPath) (xs ys : List JsPath) (d : Directory T)
      → (x == y) ≡ false
      → find_impl node (x ∷ xs) (remove_at node y ys d).1 ≡ find_impl node (x ∷ xs) d
  unfolding remove_at remove_name
  other_name x y xs [] (directory e depth files subs) h =
      find_impl-same x xs (directory e depth (erase y files) (remove_sub y subs))
        (directory e depth files subs) refl (ground (arith, get_sub-remove_sub x y subs))
        (ground (arith, lookup-erase x y files))
  other_name x y xs (z ∷ ys) (directory e depth files subs) h =
      elim (Option-cases (get_sub y subs)) [
        | inl r ↦ rw (remove_nowhere node y z ys (directory e depth files subs) r) refl
        | inr (s, r) ↦ rw (remove_below node y z ys (directory e depth files subs) s r) (
            find_impl-same x xs (directory e depth files (put_sub y (remove_at node z ys s).1 subs))
              (directory e depth files subs) refl
              (ground (arith, get_sub-put_sub x y (remove_at node z ys s).1 subs)) refl)
      ]

  pub find_impl-remove_at :
      (x y : JsPath) (xs ys : List JsPath) (d : Directory T)
      → Apart (x ∷ xs) (y ∷ ys)
      → find_impl node (x ∷ xs) (remove_at node y ys d).1 ≡ find_impl node (x ∷ xs) d
  find_impl-remove_at x y xs ys d (inl h) = other_name x y xs ys d h
  find_impl-remove_at x y [] ys d (inr (h, a)) = absurd a
  find_impl-remove_at x y (p ∷ xs) [] d (inr (h, a)) = absurd a
  find_impl-remove_at x y (p ∷ xs) (q ∷ ys) (directory e depth files subs) (inr (h, a)) =
      elim (Option-cases (get_sub y subs)) [
        | inl r ↦ rw (remove_nowhere node y q ys (directory e depth files subs) r) refl
        | inr (s, r) ↦
            rw (remove_below node y q ys (directory e depth files subs) s r, ==→≡ x y h)
              (find_next node y p xs
                  (directory e depth files (put_sub y (remove_at node q ys s).1 subs))
                  (remove_at node q ys s).1
                  (ground (arith, get_sub-put_sub y y (remove_at node q ys s).1 subs, ==_refl y))
                ∙ find_impl-remove_at p q xs ys s a
                ∙ sym (find_next node y p xs (directory e depth files subs) s r))
      ]

  remove_absolute :
      (x p : JsPath) (ps : List JsPath) (d : Directory T)
      → node.is_absolute x ≡ true
      → starts_with x (dir_path d) ≡ true
      → parts node (relativize node (dir_path d) x) ≡ p ∷ ps
      → remove node x d ≡ remove_at node p ps d
  unfolding remove remove_impl
  remove_absolute x p ps d abs under names = rw (abs, under, names) refl

  -- `find` of an absolute path below this directory, where nothing but what it calls is known.
  pub find_below :
      (x p : JsPath) (ps : List JsPath) (c d : Directory T)
      → entry_of c ≡ entry_of d
      → node.is_absolute x ≡ true
      → starts_with x (dir_path d) ≡ true
      → (x == dir_path d) ≡ false
      → parts node (relativize node (dir_path d) x) ≡ p ∷ ps
      → find node x c ≡ (if (typed (entry_of d)).exists then find_impl node (p ∷ ps) c else none)
  unfolding find
  find_below x p ps (directory e1 n1 files1 subs1) (directory e2 n2 files2 subs2) same abs under ne
        names =
      rw (same, ne, abs, under, names) refl

  -- After `remove` of an absolute path strictly below the directory, `find` of that path gives
  -- nothing: no file and no subdirectory.
  pub remove-find :
      (x p : JsPath) (ps : List JsPath) (d : Directory T)
      → node.is_absolute x ≡ true
      → starts_with x (dir_path d) ≡ true
      → (x == dir_path d) ≡ false
      → parts node (relativize node (dir_path d) x) ≡ p ∷ ps
      → find node x (remove node x d).1 ≡ none
  remove-find x p ps d abs under ne names = rw (remove_absolute x p ps d abs under names) (
      find_below x p ps (remove_at node p ps d).1 d (remove_at-entry_of p ps d) abs under ne names
      ∙ rw (remove_at-gone node p ps d) (if_same _))

  -- `remove` of one path leaves alone what `find` gives for another, when both are absolute, lie
  -- strictly below the directory, and neither lies below the other.
  pub remove-find-Apart :
      (x y p q : JsPath) (ps qs : List JsPath) (d : Directory T)
      → node.is_absolute x ≡ true
      → starts_with x (dir_path d) ≡ true
      → (x == dir_path d) ≡ false
      → parts node (relativize node (dir_path d) x) ≡ p ∷ ps
      → node.is_absolute y ≡ true
      → starts_with y (dir_path d) ≡ true
      → parts node (relativize node (dir_path d) y) ≡ q ∷ qs
      → Apart (p ∷ ps) (q ∷ qs)
      → find node x (remove node y d).1 ≡ find node x d
  remove-find-Apart x y p q ps qs d abs under ne names abs' under' names' apart =
      rw (remove_absolute y q qs d abs' under' names') (
        find_below x p ps (remove_at node q qs d).1 d (remove_at-entry_of q qs d) abs under ne names
        ∙ rw (find_impl-remove_at p q ps qs d apart)
            (sym (find_below x p ps d d refl abs under ne names)))

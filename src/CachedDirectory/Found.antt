-- ===== src/CachedDirectory/Found.antt =====
-- What `find` answers after `remove` and after `update` of one name.
use file_tree_views.Base.{
  ◌≡◌, refl, ◌∙◌, Option, none, some, List, [], ◌∷◌, arith, str_eq, ==_refl, inl, inr, Option-cases,
}
use file_tree_views.Base.Dict.{lookup, erase, lookup-erase}
use file_tree_views.Either.{right}
use file_tree_views.Path.{NodePath, JsPath}
use file_tree_views.Entry.{Entry}
use file_tree_views.CachedDirectory.Tree.{
  Directory, directory, Subdirectories, files_of, subs_of, dir_path, get_sub, put_sub, remove_sub,
  get_sub-put_sub, get_sub-remove_sub,
}
use file_tree_views.CachedDirectory.Finding.{find_impl, found_file}
use file_tree_views.CachedDirectory.Removal.{put_removed, remove_name, remove_at}

module _ (node : NodePath) {T : Type 0} where
  pub find_last_sub :
      (p : JsPath) (d s : Directory T)
      → get_sub p (subs_of d) ≡ some s
      → find_impl node (p ∷ []) d ≡ some (right s)
  unfolding find_impl
  find_last_sub p d s h = rw (h, find_impl) refl

  pub find_last_file :
      (p : JsPath) (d : Directory T)
      → get_sub p (subs_of d) ≡ none
      → find_impl node (p ∷ []) d ≡ found_file node (dir_path d) (lookup p (files_of d))
  unfolding find_impl
  find_last_file p d h = rw (h, find_impl) refl

  pub find_next :
      (p q : JsPath) (ps : List JsPath) (d s : Directory T)
      → get_sub p (subs_of d) ≡ some s
      → find_impl node (p ∷ q ∷ ps) d ≡ find_impl node (q ∷ ps) s
  unfolding find_impl
  find_next p q ps d s h = rw (h, find_impl) refl

  pub find_next_none :
      (p q : JsPath) (ps : List JsPath) (d : Directory T)
      → get_sub p (subs_of d) ≡ none
      → find_impl node (p ∷ q ∷ ps) d ≡ none
  unfolding find_impl
  find_next_none p q ps d h = rw (h, find_impl) refl

  get_sub-removed : (p : JsPath) (subs : Subdirectories T) → get_sub p (remove_sub p subs) ≡ none
  get_sub-removed p subs = ground (arith, get_sub-remove_sub p p subs, ==_refl p)

  get_sub-put :
      (p : JsPath) (s : Directory T) (subs : Subdirectories T)
      → get_sub p (put_sub p s subs) ≡ some s
  get_sub-put p s subs = ground (arith, get_sub-put_sub p p s subs, ==_refl p)

  found_none : (dir : JsPath) (o : Option (Entry T)) → o ≡ none → found_file node dir o ≡ none
  found_none dir o h = rw h refl

  remove_name-gone :
      (p : JsPath) (d : Directory T) → find_impl node (p ∷ []) (remove_name node p d).1 ≡ none
  unfolding remove_name
  remove_name-gone p (directory e depth files subs) =
      find_last_file p (directory e depth (erase p files) (remove_sub p subs))
        (get_sub-removed p subs)
      ∙ found_none _ _ (ground (arith, lookup-erase p p files, ==_refl p))

  pub remove_below :
      (p q : JsPath) (ps : List JsPath) (d s : Directory T)
      → get_sub p (subs_of d) ≡ some s
      → remove_at node p (q ∷ ps) d ≡ put_removed node p d (remove_at node q ps s)
  unfolding remove_at
  remove_below p q ps d s h = rw (h, remove_at) refl

  pub remove_nowhere :
      (p q : JsPath) (ps : List JsPath) (d : Directory T)
      → get_sub p (subs_of d) ≡ none
      → remove_at node p (q ∷ ps) d ≡ ([], d)
  unfolding remove_at
  remove_nowhere p q ps d h = rw (h, remove_at) refl

  pub remove_at-gone :
      (p : JsPath) (ps : List JsPath) (d : Directory T)
      → find_impl node (p ∷ ps) (remove_at node p ps d).1 ≡ none
  remove_at-gone p [] d = unfold remove_at in remove_name-gone p d
  remove_at-gone p (q ∷ ps) (directory e depth files subs) = elim (Option-cases (get_sub p subs)) [
    | inl r ↦
        rw (remove_nowhere p q ps (directory e depth files subs) r)
          (find_next_none p q ps (directory e depth files subs) r)
    | inr (s, r) ↦ rw (remove_below p q ps (directory e depth files subs) s r) (
        find_next p q ps (directory e depth files (put_sub p (remove_at node q ps s).1 subs))
          (remove_at node q ps s).1 (get_sub-put p (remove_at node q ps s).1 subs)
        ∙ remove_at-gone q ps s)
  ]

-- ===== src/DirectoryTree/Again.antt =====
-- A registration that is made twice.
use file_tree_views.Base.{
  ℕ, ◌≡◌, refl, ap, ◌∙◌, true, false, Option, none, some, [], ◌∷◌, ◌++◌, str_eq, ==_refl,
  if◌then◌else◌, arith, Bool-cases, inl, inr,
}
use file_tree_views.Base.Int.{ℤ, negsuc, ltb_ℤ}
use file_tree_views.Base.Dict.{Dict, lookup, insert, lookup-insert}
use file_tree_views.Either.{no_such_file, not_directory, access_denied, file_system_loop, other}
use file_tree_views.Path.{JsPath, to_absolute}
use file_tree_views.Registry.{RegisteredDirectory, registered_directory, is_deeper}
use file_tree_views.CachedDirectory.Tree.{Setting, Directory}
use file_tree_views.CachedDirectory.Update.{
  Updated, updated, update_threw, update_exhausted, update,
}
use file_tree_views.DirectoryTree.Sorting.{sort}
use file_tree_views.DirectoryTree.State.{Cache, add_watched, add_pending}
use file_tree_views.DirectoryTree.Register.{
  pended, kept, refreshed, Made, made, refused, made_none, Registered, registered, register_threw,
  register_exhausted, new_cached_directory, filtered, first_holding, ascends, cleanup_directories,
  pend, made_new, register_new, watched_new, register,
}

less_self : (n : ℤ) → ltb_ℤ n n ≡ false
less_self n = ground arith

module _ {T : Type 0} where
  -- The registrations after a call that ended.
  abbrev pub IsLeft : (ws : Dict JsPath RegisteredDirectory) → Registered T → Type 0
  IsLeft ws (registered d s) = s.watched ≡ ws
  IsLeft ws (register_threw x s) = s.watched ≡ ws
  IsLeft ws register_exhausted = Unit

  module _ (c : Setting T) (fuel : ℕ) (q : JsPath) (n : ℤ)
      (ws : Dict JsPath RegisteredDirectory) where
    pended-IsLeft : (s : Cache T) (m : Made T) → s.watched ≡ ws → IsLeft ws (pended c fuel q n s m)
    unfolding cleanup_directories
    pended-IsLeft s (made d) h = h
    pended-IsLeft s (refused x) h = h
    pended-IsLeft s made_none h = tt

    pend-IsLeft : (s : Cache T) → s.watched ≡ ws → IsLeft ws (pend c fuel q n s)
    pend-IsLeft s h =
        pended-IsLeft (record s { pending = add_pending q s.pending })
          (new_cached_directory c fuel s.watched q (negsuc 0)) h

    kept-IsLeft : (s : Cache T) (m : Made T) → s.watched ≡ ws → IsLeft ws (kept c fuel q n s m)
    unfolding cleanup_directories
    kept-IsLeft s (made d) h = h
    kept-IsLeft s (refused (no_such_file m)) h = pend-IsLeft s h
    kept-IsLeft s (refused (not_directory m)) h = h
    kept-IsLeft s (refused (access_denied m)) h = h
    kept-IsLeft s (refused (file_system_loop m)) h = h
    kept-IsLeft s (refused (other m)) h = h
    kept-IsLeft s made_none h = tt

    made_new-IsLeft :
        (s : Cache T) (m : Made T) → s.watched ≡ ws → IsLeft ws (made_new c fuel q n s m)
    made_new-IsLeft s (made d) h = kept-IsLeft s (made d) h
    made_new-IsLeft s (refused (no_such_file m)) h = kept-IsLeft s (refused (no_such_file m)) h
    made_new-IsLeft s (refused (not_directory m)) h =
        kept-IsLeft s (new_cached_directory c fuel s.watched q (negsuc 0)) h
    made_new-IsLeft s (refused (access_denied m)) h = kept-IsLeft s (refused (access_denied m)) h
    made_new-IsLeft s (refused (file_system_loop m)) h =
        kept-IsLeft s (refused (file_system_loop m)) h
    made_new-IsLeft s (refused (other m)) h = kept-IsLeft s (refused (other m)) h
    made_new-IsLeft s made_none h = kept-IsLeft s made_none h

    refreshed-IsLeft :
        (k : JsPath) (s : Cache T) (u : Updated T)
        → s.watched ≡ ws
        → IsLeft ws (refreshed c fuel q n k s u)
    unfolding cleanup_directories
    refreshed-IsLeft k s (updated u d) h = h
    refreshed-IsLeft k s (update_threw x d) h = h
    refreshed-IsLeft k s update_exhausted h = tt

    held-IsLeft :
        (s : Cache T) (o : Option (JsPath × Directory T))
        → s.watched ≡ ws
        → IsLeft ws (elim o [
          | none ↦ made_new c fuel q n s (new_cached_directory c fuel s.watched q n)
          | some (k, d) ↦
              refreshed c fuel q n k s
                (update (filtered c fuel s.watched) fuel (c.typed_path_at q) true d)
        ])
    held-IsLeft s none h = made_new-IsLeft s (new_cached_directory c fuel s.watched q n) h
    held-IsLeft s (some (k, d)) h =
        refreshed-IsLeft k s (update (filtered c fuel s.watched) fuel (c.typed_path_at q) true d) h

    register_new-IsLeft : (s : Cache T) → s.watched ≡ ws → IsLeft ws (register_new c fuel q n s)
    unfolding register_new
    register_new-IsLeft s h =
        held-IsLeft s (first_holding c fuel q n (sort (ascends c fuel) s.directories)) h

  module _ (c : Setting T) (fuel : ℕ) (p : JsPath) (n : ℤ) where
    abbrev own : JsPath
    own = to_absolute c.node p

    -- A registration of the same path and depth in this state gives nothing and changes nothing.
    abbrev pub IsIdle : Cache T → Type 0
    IsIdle s = register c fuel p n s ≡ registered none s

    idle : (s : Cache T) → is_deeper n (lookup own s.watched) ≡ false → IsIdle s
    unfolding register add_watched
    idle s h =
        ap
          (λ b. watched_new c fuel own n s (
            if b
            then (true, insert own (registered_directory own n) s.watched)
            else (false, s.watched)))
          h

    abbrev pub IsDone : Registered T → Type 0
    IsDone (registered d s) = IsIdle s
    IsDone (register_threw x s) = IsIdle s
    IsDone register_exhausted = Unit

    abbrev known : Cache T → Dict JsPath RegisteredDirectory
    known s = insert own (registered_directory own n) s.watched

    IsIdle-known : (s t : Cache T) → t.watched ≡ known s → IsIdle t
    unfolding registered_directory is_deeper
    IsIdle-known s t h = idle t (
        ap (λ ws. is_deeper n (lookup own ws)) h
        ∙ ground (
          arith,
          lookup-insert own own (registered_directory own n) s.watched,
          ==_refl own,
          less_self n,
        ))

    done : (s : Cache T) (o : Registered T) → IsLeft (known s) o → IsDone o
    done s (registered d t) h = IsIdle-known s t h
    done s (register_threw x t) h = IsIdle-known s t h
    done s register_exhausted h = tt

    -- However a registration ends, with a directory, with nothing or with an exception, another one of
    -- the same path and depth gives nothing and changes nothing.
    pub register-IsDone : (s : Cache T) → IsDone (register c fuel p n s)
    unfolding register add_watched
    register-IsDone s = elim (Bool-cases (is_deeper n (lookup own s.watched))) [
      | inr shallow ↦ rw shallow (idle s shallow)
      | inl deeper ↦ rw deeper (
          done s
            (register_new c fuel own n
              (record s { watched = known s; asked = s.asked ++ (own, n) ∷ [] }))
            (register_new-IsLeft c fuel own n (known s)
              (record s { watched = known s; asked = s.asked ++ (own, n) ∷ [] }) refl))
    ]

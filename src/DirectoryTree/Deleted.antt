-- ===== src/DirectoryTree/Deleted.antt =====
-- The deletion of a path that the tree caches.
use file_tree_views.Base.{
  ◌≡◌, refl, ap, sym, ◌∙◌, Bool, true, false, ◌||◌, none, List, [], ◌∷◌, All, str_eq, ◌==◌, ==_refl,
  ==→≡, if◌then◌else◌, arith, Bool-cases, inl, inr,
}
use file_tree_views.Base.Dict.{Dict, lookup, insert, keys, lookup-insert, lookup-erase}
use file_tree_views.Path.{JsPath, starts_with}
use file_tree_views.Path.Prefix.{starts_with_refl}
use file_tree_views.Entry.{Entry, typed, set_gone}
use file_tree_views.Changes.{delete}
use file_tree_views.CachedDirectory.Tree.{Setting, Directory, dir_path}
use file_tree_views.DirectoryTree.State.{Cache, Collected, add_callback, add_pending, is_pending}
use file_tree_views.DirectoryTree.Handle.{
  has_path, given_up, left_behind, delete_loop, unlinked, report_gone, handle_delete,
}

or_true : (b : Bool) → (b || true) ≡ true
or_true true = refl
or_true false = refl

module _ {T : Type 0} (c : Setting T) where
  -- Every directory stands under its own path.
  abbrev pub IsKeyed : Dict JsPath (Directory T) → Type 0
  IsKeyed = All (λ (k, d). dir_path d ≡ k)

  module _ (p : JsPath) where
    same_key : (k : JsPath) (d : Directory T) → dir_path d ≡ k → (dir_path d == p) ≡ (p == k)
    same_key k d e = elim (Bool-cases (p == k)) [
      | inl y ↦ rw (e, sym (==→≡ p k y)) refl
      | inr n ↦ other_key k d e n
    ]
      where
        other_key :
            (k : JsPath) (d : Directory T)
            → dir_path d ≡ k
            → (p == k) ≡ false
            → (dir_path d == p) ≡ (p == k)
        other_key k d e n = ground (arith, ==→≡ (dir_path d) p, ==_refl p)

    step :
        (k : JsPath) (d new : Directory T) (s : Cache T)
        → dir_path d ≡ k
        → lookup p (left_behind c p k d new s).directories
          ≡ (if p == k then none else lookup p s.directories)
    step k d new s e = ground (
      arith,
      same_key k d e,
      lookup-erase p p (insert k new s.directories),
      lookup-insert p k new s.directories,
      ==_refl p,
    )

    above_itself :
        (k : JsPath) (d : Directory T)
        → dir_path d ≡ k
        → starts_with p (dir_path d) ≡ false
        → (p == k) ≡ false
    above_itself k d e n = elim (Bool-cases (p == k)) [
      | inr m ↦ m
      | inl y ↦
          let both = sym (starts_with_refl p) ∙ ap (starts_with p) (==→≡ p k y ∙ sym e) ∙ n in cc
    ]

    lookup-delete_loop :
        (ds : Dict JsPath (Directory T)) (s : Cache T)
        → IsKeyed ds
        → lookup p (delete_loop c p ds s).1.directories
          ≡ (if has_path p (keys ds) then none else lookup p s.directories)
    unfolding delete_loop keys
    lookup-delete_loop [] s h = refl
    lookup-delete_loop ((k, d) ∷ ds) s (e, h) = elim (Bool-cases (starts_with p (dir_path d))) [
      | inl y ↦
          let t = left_behind c p k d (given_up c p d).1 s in
          rw y (ground (arith, lookup-delete_loop ds t h, step k d (given_up c p d).1 s e))
      | inr n ↦ rw n (ground (arith, lookup-delete_loop ds s h, above_itself k d e n))
    ]

    is_pending-add_pending : (ps : List JsPath) → is_pending p (add_pending p ps) ≡ true
    unfolding add_pending
    is_pending-add_pending ps = ground (arith, ==_refl p)

    pending_step :
        (k : JsPath) (d new : Directory T) (s : Cache T)
        → has_path p (keys s.watched) ≡ true
        → is_pending p (left_behind c p k d new s).pending ≡ true
    pending_step k d new s r = rw r (is_pending-add_pending s.pending)

    is_pending-delete_loop :
        (ds : Dict JsPath (Directory T)) (s : Cache T)
        → IsKeyed ds
        → has_path p (keys s.watched) ≡ true
        → (is_pending p s.pending || has_path p (keys ds)) ≡ true
        → is_pending p (delete_loop c p ds s).1.pending ≡ true
    unfolding delete_loop keys
    is_pending-delete_loop [] s h r o = ground arith
    is_pending-delete_loop ((k, d) ∷ ds) s (e, h) r o =
        elim (Bool-cases (starts_with p (dir_path d))) [
          | inl y ↦
              let t = left_behind c p k d (given_up c p d).1 s in
              rw y (
                is_pending-delete_loop ds t h r
                  (ap (λ b. b || has_path p (keys ds)) (pending_step k d (given_up c p d).1 s r)))
          | inr n ↦ rw n (
              is_pending-delete_loop ds s h r (
                ap (λ b. is_pending p s.pending || (b || has_path p (keys ds)))
                  (sym (above_itself k d e n))
                ∙ o))
        ]

    -- Reporting the entries leaves the directories and the pending paths alone.
    report_gone-keeps :
        (es : List (Entry T)) (w : Collected T) (s : Cache T)
        → ((report_gone c es w s).1.directories ≡ s.directories)
          × ((report_gone c es w s).1.pending ≡ s.pending)
    unfolding report_gone
    report_gone-keeps [] w s = (refl, refl)
    report_gone-keeps (e ∷ es) w s =
        report_gone-keeps es (add_callback c.follow_links (delete (set_gone c.node e)) w)
          (record s { links = unlinked c (typed (set_gone c.node e)) s.links })

    -- Let every directory stand under its own path, and the path be registered and cached. Its deletion
    -- takes its directory out of the cache and makes it pending.
    pub handle_delete-root :
        (w : Collected T) (s : Cache T)
        → IsKeyed s.directories
        → has_path p (keys s.directories) ≡ true
        → has_path p (keys s.watched) ≡ true
        → (lookup p (handle_delete c p w s).1.directories ≡ none)
          × (is_pending p (handle_delete c p w s).1.pending ≡ true)
    unfolding handle_delete
    handle_delete-root w s h cached r =
        let (es, rest) = delete_loop c p s.directories s in
        let (f, g) = report_gone-keeps es w rest in
        (
          ap (lookup p) f
              ∙ lookup-delete_loop s.directories s h
              ∙ ap (λ b. if b then none else lookup p s.directories) cached,
          ap (is_pending p) g
              ∙ is_pending-delete_loop s.directories s h r
                  (ap (λ b. is_pending p s.pending || b) cached ∙ or_true (is_pending p s.pending)),
        )

-- ===== src/Changes/Delivery.antt =====
-- The order in which `Updates` hands on what it collects.
use mathlib.Core.List.{foldl-append, append_assoc, append-nil}
use file_tree_views.Base.{
  ◌≡◌, refl, ◌∙◌, ap, false, Option, none, some, List, [], ◌∷◌, ◌++◌, map, All, str_eq, arith,
}
use file_tree_views.Base.Dict.{Dict, lookup, NodupKeys}
use file_tree_views.Path.{NodePath, JsPath, to_absolute}
use file_tree_views.Entry.{Entry, valid, invalid, path_of, set_gone}
use file_tree_views.Entry.Kept.{set_gone_lem, moved}
use file_tree_views.Changes.{
  Change, create, update, delete, arrival, arrivals, departure, departures, diff_maps, Updates,
  no_updates, tell, tell_all, observe,
}
use file_tree_views.Changes.Replay.{
  replay, IsKeyed, effect, after, lookup-replay, or_else, unless_gone,
}

module _ {T : Type 0} where
  creates : List (Change T) → List (Entry T)
  creates [] = []
  creates (create e ∷ cs) = e ∷ creates cs
  creates (update old new ∷ cs) = creates cs
  creates (delete e ∷ cs) = creates cs

  replaced : List (Change T) → List (Entry T × Entry T)
  replaced [] = []
  replaced (create e ∷ cs) = replaced cs
  replaced (update old new ∷ cs) = (old, new) ∷ replaced cs
  replaced (delete e ∷ cs) = replaced cs

  deletes : List (Change T) → List (Entry T)
  deletes [] = []
  deletes (create e ∷ cs) = deletes cs
  deletes (update old new ∷ cs) = deletes cs
  deletes (delete e ∷ cs) = e ∷ deletes cs

  abbrev sorted_onto : Updates T → List (Change T) → Updates T
  sorted_onto u cs = record {
    creations = u.creations ++ creates cs;
    updates = u.updates ++ replaced cs;
    deletions = u.deletions ++ deletes cs;
  }

  -- `Updates` keeps every change that it is told, in three lists, each in the order of telling.
  tell_all-sorted : (u : Updates T) (cs : List (Change T)) → tell_all u cs ≡ sorted_onto u cs
  unfolding tell_all creates replaced deletes
  tell_all-sorted u [] = simp append-nil
  tell_all-sorted u (create e ∷ cs) = tell_all-sorted (tell u (create e)) cs ∙ simp append_assoc
  tell_all-sorted u (update old new ∷ cs) =
      tell_all-sorted (tell u (update old new)) cs ∙ simp append_assoc
  tell_all-sorted u (delete e ∷ cs) = tell_all-sorted (tell u (delete e)) cs ∙ simp append_assoc

  creates-append : (cs ds : List (Change T)) → creates (cs ++ ds) ≡ creates cs ++ creates ds
  unfolding creates
  creates-append [] ds = refl
  creates-append (create e ∷ cs) ds = ap (◌∷◌ e) (creates-append cs ds)
  creates-append (update old new ∷ cs) ds = creates-append cs ds
  creates-append (delete e ∷ cs) ds = creates-append cs ds

  replaced-append : (cs ds : List (Change T)) → replaced (cs ++ ds) ≡ replaced cs ++ replaced ds
  unfolding replaced
  replaced-append [] ds = refl
  replaced-append (create e ∷ cs) ds = replaced-append cs ds
  replaced-append (update old new ∷ cs) ds = ap (◌∷◌ (old, new)) (replaced-append cs ds)
  replaced-append (delete e ∷ cs) ds = replaced-append cs ds

  deletes-append : (cs ds : List (Change T)) → deletes (cs ++ ds) ≡ deletes cs ++ deletes ds
  unfolding deletes
  deletes-append [] ds = refl
  deletes-append (create e ∷ cs) ds = deletes-append cs ds
  deletes-append (update old new ∷ cs) ds = deletes-append cs ds
  deletes-append (delete e ∷ cs) ds = ap (◌∷◌ e) (deletes-append cs ds)

  creates-departures : (new old : Dict JsPath (Entry T)) → creates (departures new old) ≡ []
  unfolding creates departures
  creates-departures new [] = refl
  creates-departures new ((p, e) ∷ old) = ground (arith, creates-departures new old)

  replaced-departures : (new old : Dict JsPath (Entry T)) → replaced (departures new old) ≡ []
  unfolding replaced departures
  replaced-departures new [] = refl
  replaced-departures new ((p, e) ∷ old) = ground (arith, replaced-departures new old)

  deletes-arrivals : (old new : Dict JsPath (Entry T)) → deletes (arrivals old new) ≡ []
  unfolding deletes arrivals
  deletes-arrivals old [] = refl
  deletes-arrivals old ((p, e) ∷ new) = ground (arith, deletes-arrivals old new)

path-set_gone :
    {T : Type 0} (node : NodePath) (e : Entry T)
    → path_of (set_gone node e) ≡ to_absolute node (path_of e)
path-set_gone node e = ap path_of (set_gone_lem node e) ∙ go e
  where
    go :
        {T : Type 0} (e : Entry T)
        → path_of (moved (to_absolute node (path_of e)) false e) ≡ to_absolute node (path_of e)
    go (valid t v) = refl
    go (invalid t x) = refl

module _ {T : Type 0} (node : NodePath) (k : JsPath) where
  abbrev if_absent : Option (Entry T) → Option (Entry T) → Option (Entry T) → Option (Entry T)
  if_absent none x v = x
  if_absent (some old) x v = v

  after-create :
      (v o : Option (Entry T)) (e : Entry T) (cs : List (Change T))
      → after k v (map create (creates (arrival o e ∷ cs))) ≡ elim o [
        | none ↦ after k (effect k v (create e)) (map create (creates cs))
        | some old ↦ after k v (map create (creates cs))
      ]
  unfolding creates
  after-create v none e cs = refl
  after-create v (some old) e cs = refl

  abbrev renew : Entry T × Entry T → Change T
  renew (old, new) = update old new

  after-update :
      (v o : Option (Entry T)) (e : Entry T) (cs : List (Change T))
      → after k v (map renew (replaced (arrival o e ∷ cs))) ≡ elim o [
        | none ↦ after k v (map renew (replaced cs))
        | some old ↦ after k (effect k v (create e)) (map renew (replaced cs))
      ]
  unfolding replaced
  after-update v none e cs = refl
  after-update v (some old) e cs = refl

  abbrev lose : Entry T → Change T
  lose e = delete (set_gone node e)

  after-delete :
      (v o : Option (Entry T)) (e : Entry T) (cs : List (Change T))
      → after k v (map lose (deletes (departure o e cs))) ≡ elim o [
        | none ↦ after k (effect k v (lose e)) (map lose (deletes cs))
        | some new ↦ after k v (map lose (deletes cs))
      ]
  unfolding deletes
  after-delete v none e cs = refl
  after-delete v (some new) e cs = refl

  after-creates :
      (old new : Dict JsPath (Entry T)) (v : Option (Entry T))
      → IsKeyed new
      → NodupKeys new
      → after k v (map create (creates (arrivals old new)))
        ≡ if_absent (lookup k old) (or_else k (lookup k new) v) v
  unfolding arrivals lookup creates
  after-creates old [] v keyed nodup = ground arith
  after-creates old ((p, e) ∷ new) v (at_p, keyed) (fresh, nodup) = ground (
    arith,
    after-create v (lookup p old) e (arrivals old new),
    after-creates old new v keyed nodup,
    after-creates old new (effect k v (create e)) keyed nodup,
  )

  after-replaced :
      (old new : Dict JsPath (Entry T)) (v : Option (Entry T))
      → IsKeyed new
      → NodupKeys new
      → after k v (map renew (replaced (arrivals old new)))
        ≡ if_absent (lookup k old) v (or_else k (lookup k new) v)
  unfolding arrivals lookup replaced
  after-replaced old [] v keyed nodup = ground arith
  after-replaced old ((p, e) ∷ new) v (at_p, keyed) (fresh, nodup) = ground (
    arith,
    after-update v (lookup p old) e (arrivals old new),
    after-replaced old new v keyed nodup,
    after-replaced old new (effect k v (create e)) keyed nodup,
  )

  after-deletes :
      (new old : Dict JsPath (Entry T)) (v : Option (Entry T))
      → IsKeyed old
      → All (λ (p, e). to_absolute node p ≡ p) old
      → after k v (map lose (deletes (departures new old)))
        ≡ unless_gone k (lookup k new) (lookup k old) v
  unfolding departures lookup deletes
  after-deletes new [] v keyed abs = ground arith
  after-deletes new ((p, e) ∷ old) v (at_p, keyed) (abs_p, abs) = ground (
    arith,
    after-delete v (lookup p new) e (departures new old),
    ap (to_absolute node) at_p,
    path-set_gone node e,
    after-deletes new old v keyed abs,
    after-deletes new old (effect k v (delete (set_gone node e))) keyed abs,
  )

  if_absent-or_else :
      (old new : Option (Entry T))
      → unless_gone k new old (
          if_absent old
            (if_absent old (or_else k new old) old)
            (or_else k new (if_absent old (or_else k new old) old)))
        ≡ new
  if_absent-or_else none none = refl
  if_absent-or_else none (some e) = refl
  if_absent-or_else (some e) none = refl
  if_absent-or_else (some e) (some f) = refl

  after-observe :
      (old new : Dict JsPath (Entry T)) (v : Option (Entry T))
      → after k v (observe node (tell_all no_updates (diff_maps old new)))
        ≡ after k
            (after k
              (after k v (map create (creates (arrivals old new))))
              (map renew (replaced (arrivals old new))))
            (map lose (deletes (departures new old)))
  unfolding observe diff_maps
  after-observe old new v = simp (
    tell_all-sorted, creates-append, replaced-append, deletes-append, creates-departures,
    replaced-departures, deletes-arrivals, append-nil, foldl-append,
  )

-- Collect the changes between two maps in an `Updates`, as every update of a cached directory does,
-- and let it notify an observer: creations first, then updates, then deletions, the deleted entries
-- marked as gone. Replayed on the old map, these calls give the new map at every path. Entries
-- stand under their own paths, which are absolute, and the new map has no path twice.
pub replay-observe :
    {T : Type 0} (node : NodePath) (old new : Dict JsPath (Entry T))
    → IsKeyed old
    → IsKeyed new
    → NodupKeys new
    → All (λ (p, e). to_absolute node p ≡ p) old
    → (k : JsPath)
    → lookup k (replay old (observe node (tell_all no_updates (diff_maps old new)))) ≡ lookup k new
replay-observe node old new keyed_old keyed_new nodup absolute k =
    lookup-replay k old _
    ∙ after-observe node k old new (lookup k old)
    ∙ rw
        (
          after-creates node k old new (lookup k old) keyed_new nodup,
          after-replaced node k old new _ keyed_new nodup,
          after-deletes node k new old _ keyed_old absolute,
        )
        (if_absent-or_else node k (lookup k old) (lookup k new))

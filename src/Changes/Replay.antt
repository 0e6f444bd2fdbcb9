-- ===== src/Changes/Replay.antt =====
-- The changes between two maps of entries, replayed.
use file_tree_views.Base.{
  ◌≡◌, refl, ◌∙◌, Option, none, some, List, [], ◌∷◌, All, str_eq, ◌==◌, arith, if◌then◌else◌,
}
use mathlib.Core.List.{foldl, foldl-append}
use file_tree_views.Base.Dict.{Dict, lookup, insert, erase, lookup-insert, lookup-erase, NodupKeys}
use file_tree_views.Path.{JsPath}
use file_tree_views.Entry.{Entry, path_of}
use file_tree_views.Changes.{
  Change, create, update, delete, arrival, arrivals, departure, departures, diff_maps,
}

module _ {T : Type 0} where
  -- A map that is kept in step with the changes that it is told.
  pub apply : Dict JsPath (Entry T) → Change T → Dict JsPath (Entry T)
  apply d (create e) = insert (path_of e) e d
  apply d (update old new) = insert (path_of new) new d
  apply d (delete e) = erase (path_of e) d

  pub replay : Dict JsPath (Entry T) → List (Change T) → Dict JsPath (Entry T)
  unfolding apply
  replay = foldl apply

  -- Each entry stands under its path.
  abbrev pub IsKeyed : Dict JsPath (Entry T) → Type 0
  IsKeyed = All (λ (k, e). path_of e ≡ k)

module _ {T : Type 0} (k : JsPath) where
  -- The same, seen at one path.
  abbrev pub effect : Option (Entry T) → Change T → Option (Entry T)
  effect v (create e) = if k == path_of e then some e else v
  effect v (update old new) = if k == path_of new then some new else v
  effect v (delete e) = if k == path_of e then none else v

  abbrev pub after : Option (Entry T) → List (Change T) → Option (Entry T)
  after = foldl effect

  lookup-apply :
      (d : Dict JsPath (Entry T)) (c : Change T) → lookup k (apply d c) ≡ effect (lookup k d) c
  unfolding apply
  lookup-apply d (create e) = lookup-insert k (path_of e) e d
  lookup-apply d (update old new) = lookup-insert k (path_of new) new d
  lookup-apply d (delete e) = lookup-erase k (path_of e) d

  pub lookup-replay :
      (d : Dict JsPath (Entry T)) (cs : List (Change T))
      → lookup k (replay d cs) ≡ after (lookup k d) cs
  unfolding replay
  lookup-replay d [] = refl
  lookup-replay d (c ∷ cs) = lookup-replay (apply d c) cs ∙ rw (lookup-apply d c)

  -- What a map has at the path, or else what was there.
  abbrev pub or_else : Option (Entry T) → Option (Entry T) → Option (Entry T)
  or_else none v = v
  or_else (some e) v = some e

  abbrev pub unless_gone : Option (Entry T) → Option (Entry T) → Option (Entry T) → Option (Entry T)
  unless_gone (some new) old v = v
  unless_gone none none v = v
  unless_gone none (some old) v = none

  effect-arrival :
      (v o : Option (Entry T)) (e : Entry T)
      → effect v (arrival o e) ≡ (if k == path_of e then some e else v)
  effect-arrival v none e = refl
  effect-arrival v (some old) e = refl

  after-departure :
      (v o : Option (Entry T)) (e : Entry T) (rest : List (Change T))
      → after v (departure o e rest)
        ≡ elim o [ none ↦ after (effect v (delete e)) rest | some new ↦ after v rest ]
  after-departure v none e rest = refl
  after-departure v (some new) e rest = refl

  after-arrivals :
      (old new : Dict JsPath (Entry T)) (v : Option (Entry T))
      → IsKeyed new
      → NodupKeys new
      → after v (arrivals old new) ≡ or_else (lookup k new) v
  unfolding arrivals lookup
  after-arrivals old [] v keyed nodup = refl
  after-arrivals old ((p, e) ∷ new) v (at_p, keyed) (fresh, nodup) = ground (
    arith,
    effect-arrival v (lookup p old) e,
    after-arrivals old new (effect v (arrival (lookup p old) e)) keyed nodup,
  )

  after-departures :
      (new old : Dict JsPath (Entry T)) (v : Option (Entry T))
      → IsKeyed old
      → after v (departures new old) ≡ unless_gone (lookup k new) (lookup k old) v
  unfolding departures lookup
  after-departures new [] v keyed = ground arith
  after-departures new ((p, e) ∷ old) v (at_p, keyed) = ground (
    arith,
    after-departure v (lookup p new) e (departures new old),
    after-departures new old v keyed,
    after-departures new old (effect v (delete e)) keyed,
  )

  pub unless_gone-or_else :
      (new old : Option (Entry T)) → unless_gone new old (or_else new old) ≡ new
  unless_gone-or_else none none = refl
  unless_gone-or_else none (some e) = refl
  unless_gone-or_else (some e) old = refl

-- Take two maps of entries, each entry under its own path and no path twice. Telling a copy of the
-- old map every change that `diffDirectoryEntries` reports makes it agree with the new map at every
-- path, in whichever order the two maps are walked.
pub replay-diff_maps :
    {T : Type 0} (old new : Dict JsPath (Entry T))
    → IsKeyed old
    → IsKeyed new
    → NodupKeys new
    → (k : JsPath) → lookup k (replay old (diff_maps old new)) ≡ lookup k new
unfolding diff_maps
replay-diff_maps old new keyed_old keyed_new nodup k =
    lookup-replay k old (diff_maps old new)
    ∙ rw
        (
          foldl-append,
          after-arrivals k old new (lookup k old) keyed_new nodup,
          after-departures k new old (or_else k (lookup k new) (lookup k old)) keyed_old,
        )
        (unless_gone-or_else k (lookup k new) (lookup k old))

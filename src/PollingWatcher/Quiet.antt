-- ===== src/PollingWatcher/Quiet.antt =====
-- A run over files that did not change.
use file_tree_views.Base.{
  ℕ, ◌≡◌, refl, subst, ◌∙◌, ap, Option, none, some, List, [], ◌∷◌, All, str_eq, arith, ==_refl,
}
use mathlib.Core.List.{append-nil}
use file_tree_views.Base.Dict.{Dict, lookup, insert, NodupKeys, insert-NodupKeys, lookup-cons}
use file_tree_views.Path.{JsPath}
use file_tree_views.Entry.{Entry, valid, invalid, path_of}
use file_tree_views.Event.{Event}
use file_tree_views.Changes.{update, arrivals, departures, diff_maps, by_path}
use file_tree_views.Registry.{DirectoryRegistry, registered}
use file_tree_views.Base.Int.{ℤ}
use file_tree_views.CachedDirectory.Tree.{Setting}
use file_tree_views.PollingWatcher.{
  Poller, Entries, poll_event, poll_events, get_all, run, polled, and_all, collect, get_entries,
  collected, with_registry,
}

-- Every conversion of a file succeeded, as that to the time of its last change does.
abbrev pub IsConverted : Entry ℕ → Type 0
IsConverted (valid t n) = Unit
IsConverted (invalid t x) = ⊥

same_self : (e : Entry ℕ) → IsConverted e → poll_event (update e e) ≡ []
unfolding poll_event
same_self (valid t n) c = ground arith
same_self (invalid t x) c = absurd c

-- Each entry of the one list stands under its key in the other.
abbrev AreIn : Entries → Entries → Type 0
AreIn d = All (λ (p, e). lookup p d ≡ some e)

keep_in :
    (p : JsPath) (e : Entry ℕ) (d es : Entries)
    → lookup p d ≡ none
    → AreIn d es
    → AreIn ((p, e) ∷ d) es
keep_in p e d [] fresh h = tt
keep_in p e d ((q, f) ∷ es) fresh (here, h) =
    (lookup-kept p q e f d fresh here, keep_in p e d es fresh h)
  where
    lookup-kept :
        (p q : JsPath) (e f : Entry ℕ) (d : Entries)
        → lookup p d ≡ none
        → lookup q d ≡ some f
        → lookup q ((p, e) ∷ d) ≡ some f
    lookup-kept p q e f d fresh here = ground (arith, lookup-cons q p e d)

are_in : (d : Entries) → NodupKeys d → AreIn d d
are_in [] u = tt
are_in ((p, e) ∷ d) (fresh, u) =
    (ground (arith, lookup-cons p p e d, ==_refl p), keep_in p e d d fresh (are_in d u))

quiet_arrivals :
    (d es : Entries)
    → AreIn d es
    → All (λ (p, e). IsConverted e) es
    → poll_events (arrivals d es) ≡ []
unfolding arrivals poll_events
quiet_arrivals d [] h c = refl
quiet_arrivals d ((p, e) ∷ es) (here, h) (c, cs) =
    rw (here, same_self e c) (quiet_arrivals d es h cs)

no_departures : (d es : Entries) → AreIn d es → departures d es ≡ []
unfolding departures
no_departures d [] h = refl
no_departures d ((p, e) ∷ es) (here, h) = rw here (no_departures d es h)

quiet_diff :
    (d : Entries) → NodupKeys d → All (λ (p, e). IsConverted e) d → poll_events (diff_maps d d) ≡ []
unfolding diff_maps
quiet_diff d u c =
    rw (no_departures d d (are_in d u), append-nil (arrivals d d))
      (quiet_arrivals d d (are_in d u) c)

by_path-NodupKeys : (es : List (Entry ℕ)) (d : Entries) → NodupKeys d → NodupKeys (by_path es d)
unfolding by_path
by_path-NodupKeys [] d u = u
by_path-NodupKeys (e ∷ es) d u =
    by_path-NodupKeys es (insert (path_of e) e d) (insert-NodupKeys (path_of e) e d u)

module _ (c : Setting ℕ) (fuel : ℕ) where
  abbrev AreDistinct : Option Entries → Type 0
  AreDistinct none = Unit
  AreDistinct (some d) = NodupKeys d

  and_all-AreDistinct :
      (o : Option Entries) (es : Option (List (Entry ℕ)))
      → AreDistinct o
      → AreDistinct (and_all c fuel o es)
  and_all-AreDistinct none es u = tt
  and_all-AreDistinct (some d) none u = tt
  and_all-AreDistinct (some d) (some es) u = by_path-NodupKeys es d u

  collect-AreDistinct :
      (ds : Dict JsPath ℤ) (o : Option Entries) → AreDistinct o → AreDistinct (collect c fuel ds o)
  unfolding collect
  collect-AreDistinct [] o u = u
  collect-AreDistinct ((p, n) ∷ ds) o u =
      collect-AreDistinct ds (and_all c fuel o (get_entries c fuel p n))
        (and_all-AreDistinct o (get_entries c fuel p n) u)

  with_registry-NodupKeys :
      (r r' : DirectoryRegistry) (o : Option Entries) (new : Entries)
      → AreDistinct o
      → with_registry c fuel r o ≡ some (new, r')
      → NodupKeys new
  with_registry-NodupKeys r r' none new u h = cc
  with_registry-NodupKeys r r' (some d) new u h =
      subst (λ o. AreDistinct (elim o [ none ↦ none | some m ↦ some m.0 ])) h u

  collected-NodupKeys :
      (o : Option (Dict JsPath ℤ × DirectoryRegistry)) (r' : DirectoryRegistry) (new : Entries)
      → collected c fuel o ≡ some (new, r')
      → NodupKeys new
  collected-NodupKeys none r' new h = cc
  collected-NodupKeys (some (ds, r)) r' new h =
      with_registry-NodupKeys r r' (collect c fuel ds (some [])) new
        (collect-AreDistinct ds (some []) tt) h

  get_all-NodupKeys :
      (r r' : DirectoryRegistry) (new : Entries) → get_all c fuel r ≡ some (new, r') → NodupKeys new
  unfolding get_all
  get_all-NodupKeys r r' new h = collected-NodupKeys (registered r) r' new h

  -- Where two listings in a row find the same entries, with every conversion a success, the first
  -- run and the second both end, and the second reports nothing and leaves the watcher as it is.
  pub run-run :
      (s : Poller) (new : Entries) (r : DirectoryRegistry)
      → get_all c fuel s.registry ≡ some (new, r)
      → get_all c fuel r ≡ some (new, r)
      → All (λ (p, e). IsConverted e) new
      → (es : List Event) × (t : Poller) × (run c fuel s ≡ some (es, t))
        × (run c fuel t ≡ some ([], t))
  unfolding run
  run-run s new r first second conv = (
    poll_events (diff_maps s.old_entries new),
    record s { registry = r; old_entries = new },
    ap (polled c fuel s) first,
    ap (polled c fuel (record s { registry = r; old_entries = new })) second
        ∙ ap (λ es. some (es, record s { registry = r; old_entries = new }))
            (quiet_diff new (get_all-NodupKeys r r new second) conv),
  )

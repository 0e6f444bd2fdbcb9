-- ===== src/PollingWatcher/Reported.antt =====
-- What the events of a run tell of the paths.
use file_tree_views.Base.{
  ℕ, ◌≡◌, refl, sym, ◌∙◌, ap, Bool, true, false, Option, none, some, List, [], ◌∷◌, ◌++◌, str_eq,
  ◌==◌, arith, if◌then◌else◌,
}
use mathlib.Core.List.{append_assoc}
use file_tree_views.Base.Dict.{lookup, NodupKeys}
use file_tree_views.Path.{JsPath}
use file_tree_views.Entry.{Entry, valid, invalid, path_of}
use file_tree_views.Event.{Kind, create_kind, delete_kind, Event}
use file_tree_views.Changes.{
  Change, update, delete, arrival, arrivals, departure, departures, diff_maps,
}
use file_tree_views.Changes.Replay.{IsKeyed}
use file_tree_views.PollingWatcher.{poll_event, poll_events, Entries}

abbrev pub is_some : Option (Entry ℕ) → Bool
is_some none = false
is_some (some e) = true

-- Whether a listener that believes the events takes the path to exist.
abbrev believed : Kind → Bool → Bool → Bool
believed create_kind true b = true
believed delete_kind true b = false
believed kind here b = b

abbrev pub beliefs : JsPath → Bool → List Event → Bool
beliefs k b [] = b
beliefs k b (e ∷ es) = beliefs k (believed e.kind (k == e.typed_path.path) b) es

module _ (k : JsPath) where
  beliefs-append :
      (b : Bool) (xs ys : List Event) → beliefs k b (xs ++ ys) ≡ beliefs k (beliefs k b xs) ys
  beliefs-append b [] ys = refl
  beliefs-append b (x ∷ xs) ys = beliefs-append (believed x.kind (k == x.typed_path.path) b) xs ys

  poll_events-append :
      (xs ys : List (Change ℕ)) → poll_events (xs ++ ys) ≡ poll_events xs ++ poll_events ys
  unfolding poll_events
  poll_events-append [] ys = refl
  poll_events-append (x ∷ xs) ys =
      ap (λ es. poll_event x ++ es) (poll_events-append xs ys)
      ∙ sym (append_assoc (poll_event x) (poll_events xs) (poll_events ys))

  beliefs-cons :
      (b : Bool) (x : Change ℕ) (xs : List (Change ℕ))
      → beliefs k b (poll_events (x ∷ xs)) ≡ beliefs k (beliefs k b (poll_event x)) (poll_events xs)
  unfolding poll_events
  beliefs-cons b x xs = beliefs-append b (poll_event x) (poll_events xs)

  abbrev unless_known : Option (Entry ℕ) → Bool → Bool → Bool
  unless_known none here b = if here then true else b
  unless_known (some e) here b = b

  create_belief : (here b : Bool) → believed create_kind here b ≡ (if here then true else b)
  create_belief true b = refl
  create_belief false b = refl

  delete_belief : (here b : Bool) → believed delete_kind here b ≡ (if here then false else b)
  delete_belief true b = refl
  delete_belief false b = refl

  beliefs-update : (b : Bool) (old new : Entry ℕ) → beliefs k b (poll_event (update old new)) ≡ b
  unfolding poll_event
  beliefs-update b (valid t m) (valid s n) = ground arith
  beliefs-update b (valid t m) (invalid s y) = refl
  beliefs-update b (invalid t x) (valid s n) = refl
  beliefs-update b (invalid t x) (invalid s y) = refl

  beliefs-arrival :
      (b : Bool) (o : Option (Entry ℕ)) (e : Entry ℕ)
      → beliefs k b (poll_event (arrival o e)) ≡ unless_known o (k == path_of e) b
  unfolding poll_event
  beliefs-arrival b none e = create_belief (k == path_of e) b
  beliefs-arrival b (some old) e = beliefs-update b old e

  -- What a listener believes of a path once it was told what is new.
  abbrev appeared : Option (Entry ℕ) → Option (Entry ℕ) → Bool → Bool
  appeared none old b = b
  appeared (some e) none b = true
  appeared (some e) (some old) b = b

  unfold_nil : (b : Bool) → beliefs k b (poll_events []) ≡ b
  unfolding poll_events
  unfold_nil b = refl

  beliefs-arrivals :
      (old new : Entries) (b : Bool)
      → IsKeyed new
      → NodupKeys new
      → beliefs k b (poll_events (arrivals old new)) ≡ appeared (lookup k new) (lookup k old) b
  unfolding arrivals lookup
  beliefs-arrivals old [] b keyed nodup = unfold_nil b
  beliefs-arrivals old ((p, e) ∷ new) b (at_p, keyed) (fresh, nodup) = ground (
    arith,
    beliefs-cons b (arrival (lookup p old) e) (arrivals old new),
    beliefs-arrival b (lookup p old) e,
    beliefs-arrivals old new (beliefs k b (poll_event (arrival (lookup p old) e))) keyed nodup,
  )

  abbrev vanished : Option (Entry ℕ) → Option (Entry ℕ) → Bool → Bool
  vanished (some e) old b = b
  vanished none none b = b
  vanished none (some e) b = false

  beliefs-delete :
      (b : Bool) (e : Entry ℕ)
      → beliefs k b (poll_event (delete e)) ≡ (if k == path_of e then false else b)
  unfolding poll_event
  beliefs-delete b e = delete_belief (k == path_of e) b

  beliefs-departure :
      (b : Bool) (o : Option (Entry ℕ)) (e : Entry ℕ) (rest : List (Change ℕ))
      → beliefs k b (poll_events (departure o e rest)) ≡ elim o [
        | none ↦ beliefs k (if k == path_of e then false else b) (poll_events rest)
        | some new ↦ beliefs k b (poll_events rest)
      ]
  beliefs-departure b none e rest =
      beliefs-cons b (delete e) rest ∙ ap (λ a. beliefs k a (poll_events rest)) (beliefs-delete b e)
  beliefs-departure b (some new) e rest = refl

  beliefs-departures :
      (new old : Entries) (b : Bool)
      → IsKeyed old
      → beliefs k b (poll_events (departures new old)) ≡ vanished (lookup k new) (lookup k old) b
  unfolding departures lookup
  beliefs-departures new [] b keyed = ground (arith, unfold_nil b)
  beliefs-departures new ((p, e) ∷ old) b (at_p, keyed) = ground (
    arith,
    beliefs-departure b (lookup p new) e (departures new old),
    beliefs-departures new old b keyed,
    beliefs-departures new old (if k == path_of e then false else b) keyed,
  )

  known :
      (new old : Option (Entry ℕ)) → vanished new old (appeared new old (is_some old)) ≡ is_some new
  known none none = refl
  known none (some e) = refl
  known (some e) none = refl
  known (some e) (some d) = refl

  -- Take the entries before a run and after it, each under its own path and no new path twice. A
  -- listener that knew which paths existed before, and takes a creation to make a path exist and a
  -- deletion to end it, knows of every path whether it exists once it was told the run's events.
  pub beliefs-poll_events :
      (old new : Entries)
      → IsKeyed old
      → IsKeyed new
      → NodupKeys new
      → beliefs k (is_some (lookup k old)) (poll_events (diff_maps old new))
        ≡ is_some (lookup k new)
  unfolding diff_maps
  beliefs-poll_events old new keyed_old keyed_new nodup =
      ap (beliefs k (is_some (lookup k old)))
        (poll_events-append (arrivals old new) (departures new old))
      ∙ beliefs-append (is_some (lookup k old)) (poll_events (arrivals old new))
          (poll_events (departures new old))
      ∙ ap (λ b. beliefs k b (poll_events (departures new old)))
          (beliefs-arrivals old new (is_some (lookup k old)) keyed_new nodup)
      ∙ beliefs-departures new old _ keyed_old
      ∙ known (lookup k new) (lookup k old)

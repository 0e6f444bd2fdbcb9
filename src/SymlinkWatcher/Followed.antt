-- ===== src/SymlinkWatcher/Followed.antt =====
-- The search for a watched target, and what a deleted target leaves behind.
use file_tree_views.Base.{
  ℕ, zero, suc, ◌<◌, ◌≡◌, refl, ap, sym, subst, ◌∙◌, true, false, Option, none, some, List, [], ◌∷◌,
  str_eq, ◌==◌, ==_refl, ==→≡, nat_eq, arith, length, inl, inr, Bool-cases,
}
use file_tree_views.Base.Dict.{Dict, lookup, lookup-erase}
use file_tree_views.Path.{NodePath, JsPath, name_count, parent}
use file_tree_views.Event.{Event}
use file_tree_views.SymlinkWatcher.{Calls, Links, has_link, drop_link, is_empty}
use file_tree_views.SymlinkWatcher.Events.{
  Sought, sought, not_found, unfinished, Disk, named_or_none, sought_or, up_from, find, told_paths,
  events_of, without_target, on_next,
}

module _ (node : NodePath) where
  -- A path that has a name.
  abbrev pub IsNamed : JsPath → Type 0
  IsNamed p = nat_eq (name_count node p) 0 ≡ false

  -- The path itself and those above it, up to the last that has a name.
  pub data Reaches : JsPath → JsPath → Type 0 where
    here : {p : JsPath} → Reaches p p
    above :
        {p q t : JsPath}
        → IsNamed p
        → parent node p ≡ some q
        → IsNamed q
        → Reaches q t
        → Reaches p t

  shorter_lt : (p q : JsPath) (k : ℕ) → length q < length p → length p < suc k → length q < k
  shorter_lt p q k h l = omega arith

  module _ (ts : Dict JsPath (List JsPath)) where
    abbrev pub IsAnswer : JsPath → Sought → Type 0
    IsAnswer p (sought t qs) = Reaches p t × (lookup t ts ≡ some qs)
    IsAnswer p not_found = (t : JsPath) → Reaches p t → lookup t ts ≡ none
    IsAnswer p unfinished = ⊥

    some_inj : (q r : JsPath) → some q ≡ some r → q ≡ r
    some_inj q r e = cc

    none_below :
        (q r t : JsPath)
        → some q ≡ some r
        → ((u : JsPath) → Reaches q u → lookup u ts ≡ none)
        → Reaches r t
        → lookup t ts ≡ none
    none_below q r t e below w = below t (subst (λ o. Reaches o t) (sym (some_inj q r e)) w)

    none_above :
        (p q t : JsPath)
        → lookup p ts ≡ none
        → parent node p ≡ some q
        → ((u : JsPath) → Reaches q u → lookup u ts ≡ none)
        → Reaches p t
        → lookup t ts ≡ none
    none_above p q t h e below here = h
    none_above p q t h e below (above {q = r} n f m w) = none_below q r t (sym e ∙ f) below w

    IsAnswer-above :
        (p q : JsPath) (o : Sought)
        → lookup p ts ≡ none
        → IsNamed p
        → parent node p ≡ some q
        → IsNamed q
        → IsAnswer q o
        → IsAnswer p o
    IsAnswer-above p q (sought t qs) h n e m (r, l) = (above n e m r, l)
    IsAnswer-above p q not_found h n e m a = λ t w. none_above p q t h e a w
    IsAnswer-above p q unfinished h n e m a = a

    -- Nothing above the path is asked for.
    none_named :
        (p t : JsPath)
        → lookup p ts ≡ none
        → nat_eq (name_count node p) 0 ≡ true
        → Reaches p t
        → lookup t ts ≡ none
    none_named p t h z here = h
    none_named p t h z (above n e m w) = cc

    none_at_top :
        (p t : JsPath)
        → lookup p ts ≡ none
        → parent node p ≡ none
        → Reaches p t
        → lookup t ts ≡ none
    none_at_top p t h z here = h
    none_at_top p t h z (above n e m w) = cc

    none_at_root :
        (p q t : JsPath)
        → lookup p ts ≡ none
        → parent node p ≡ some q
        → nat_eq (name_count node q) 0 ≡ true
        → Reaches p t
        → lookup t ts ≡ none
    none_at_root p q t h e z here = h
    none_at_root p q t h e z (above {q = r} n f m w) = cc

    sought_or-IsAnswer :
        (p : JsPath) (rest : Sought) (o : Option (List JsPath))
        → lookup p ts ≡ o
        → (lookup p ts ≡ none → IsAnswer p rest)
        → IsAnswer p (sought_or node p rest o)
    sought_or-IsAnswer p rest none e h = h e
    sought_or-IsAnswer p rest (some qs) e h = (here, e)

    named_or_none-IsAnswer :
        (p q : JsPath) (rest : Sought)
        → (nat_eq (name_count node q) 0 ≡ true → IsAnswer p not_found)
        → (IsNamed q → IsAnswer p rest)
        → IsAnswer p (named_or_none node q rest)
    named_or_none-IsAnswer p q rest h k = elim (Bool-cases (nat_eq (name_count node q) 0)) [
      | inl z ↦ rw z (h z)
      | inr n ↦ rw n (k n)
    ]

    up_from-IsAnswer :
        (p : JsPath) (again : JsPath → Sought) (o : Option JsPath)
        → parent node p ≡ o
        → lookup p ts ≡ none
        → IsNamed p
        → ((q : JsPath) → parent node p ≡ some q → IsAnswer q (again q))
        → IsAnswer p (up_from node again o)
    up_from-IsAnswer p again none top e n h = λ t w. none_at_top p t e top w
    up_from-IsAnswer p again (some q) f e n h =
        named_or_none-IsAnswer p q (again q) (λ z t w. none_at_root p q t e f z w)
          (λ m. IsAnswer-above p q (again q) e n f m (h q f))

    -- Let the parent of an absolute path be absolute and shorter than it. Then a search from an absolute
    -- path with more paths to try than the path has characters ends: it gives the links of a watched
    -- target that is the path or above it, or none of these is watched.
    pub find-IsAnswer :
        ((p q : JsPath)
          → node.is_absolute p ≡ true
          → parent node p ≡ some q
          → (length q < length p) × (node.is_absolute q ≡ true))
        → (k : ℕ) (p : JsPath) → node.is_absolute p ≡ true
        → length p < k
        → IsAnswer p (find node k p ts)
    unfolding find
    find-IsAnswer above_it zero p a h = ground arith
    find-IsAnswer above_it (suc k) p a h =
        let rest = up_from node (λ q. find node k q ts) (parent node p) in
        sought_or-IsAnswer p (named_or_none node p rest) (lookup p ts) refl (λ e.
          named_or_none-IsAnswer p p rest (λ z t w. none_named p t e z w)
            (λ n.
              up_from-IsAnswer p (λ q. find node k q ts) (parent node p) refl e n
                (λ q f.
                  find-IsAnswer above_it k q (above_it p q a f).1
                    (shorter_lt p q k (above_it p q a f).0 h))))

drop_link-kept :
    (p q : JsPath) (qs : List JsPath)
    → has_link q qs ≡ true
    → (q == p) ≡ false
    → is_empty (drop_link p qs) ≡ false
unfolding drop_link
drop_link-kept p q [] h n = cc
drop_link-kept p q (r ∷ rs) h n =
    ground (arith, drop_link-kept p q rs, ==→≡ p r, ==→≡ q r, ==_refl q)

module _ (node : NodePath) (c : Calls) (disk : Disk) (fuel : ℕ) (e : Event) (s : Links) where
  abbrev path_of_event : JsPath
  path_of_event = e.typed_path.path

  abbrev told : List Event
  told =
      events_of node disk e
        (told_paths node c path_of_event (find node fuel path_of_event s.targets))

  on_next-gone :
      s.is_closed ≡ false
      → disk.file_exists path_of_event ≡ false
      → on_next node c disk fuel e s
        ≡ without_target node path_of_event s told (lookup path_of_event s.targets)
  unfolding on_next
  on_next-gone open_ gone = ground (arith)

  -- Let the watcher be open and a target be gone, one of whose links is not the target itself. Then an
  -- event on the target drops it with its links, and the watcher of the targets is not told to
  -- unregister it.
  pub on_next-without_target :
      (q : JsPath) (qs : List JsPath)
      → s.is_closed ≡ false
      → disk.file_exists path_of_event ≡ false
      → lookup path_of_event s.targets ≡ some qs
      → has_link q qs ≡ true
      → (q == path_of_event) ≡ false
      → (lookup path_of_event (on_next node c disk fuel e s).links.targets ≡ none)
        × ((on_next node c disk fuel e s).unregistered ≡ [])
  on_next-without_target q qs open_ gone found h n =
      rw (on_next-gone open_ gone ∙ ap (without_target node path_of_event s told) found) (
        ground (arith, lookup-erase path_of_event path_of_event s.targets, ==_refl path_of_event),
        rw (drop_link-kept path_of_event q qs h n) refl,
      )

-- ===== src/ApplePathWatcher/Apart.antt =====
-- The paths of the streams beside one another.
use file_tree_views.Base.{
  ◌≡◌, refl, ap, sym, subst, ◌∙◌, Bool, true, false, not, ◌&&◌, ◌||◌, Option, none, some, List, [],
  ◌∷◌, All, str_eq, ◌==◌, ==_refl, ==→≡, if◌then◌else◌, arith, Bool-cases, inl, inr,
}
use file_tree_views.Base.Int.{ℤ}
use file_tree_views.Base.Dict.{Dict, lookup, insert, erase, lookup-insert, lookup-erase}
use file_tree_views.Path.{JsPath, starts_with, to_absolute}
use file_tree_views.ApplePathWatcher.Streams.{
  Watcher, Native, Answer, illegal_state, find, redundant, stop, unregister, unregister_all,
  remove_redundant_streams, streamed, created, enrolled, taken_out, register, close,
}

-- Where one stream's path is a prefix of another's, they are one.
abbrev pub IsApart : Dict JsPath ℤ → Type 0
IsApart ss =
    (k l : JsPath) (h i : ℤ)
    → lookup k ss ≡ some h
    → lookup l ss ≡ some i
    → starts_with k l ≡ true
    → (k == l) ≡ true

abbrev pub below : JsPath → JsPath → Bool
below p k = starts_with k p && not (k == p)

abbrev pub has_path : JsPath → List JsPath → Bool
has_path p [] = false
has_path p (q ∷ qs) = p == q || has_path p qs

find-none :
    (p k : JsPath) (h : ℤ) (ss : Dict JsPath ℤ)
    → find p ss ≡ none
    → lookup k ss ≡ some h
    → starts_with p k ≡ false
unfolding find lookup
find-none p k h [] e f = cc
find-none p k h ((l, i) ∷ ss) e f = ground (arith, find-none p k h ss, ==→≡ k l)

pub redundant-has_path :
    (p k : JsPath) (h : ℤ) (ss : Dict JsPath ℤ)
    → lookup k ss ≡ some h
    → below p k ≡ true
    → has_path k (redundant p ss) ≡ true
unfolding redundant lookup
redundant-has_path p k h [] e f = cc
redundant-has_path p k h ((l, i) ∷ ss) e f =
    ground (arith, redundant-has_path p k h ss, ==→≡ k l, ==_refl k)

module _ (native : Native) where
  -- Every stream's path is absolute.
  abbrev pub IsAbsolute : Dict JsPath ℤ → Type 0
  IsAbsolute = All (λ (k, h). to_absolute native.node k ≡ k)

  abbrev pub AreAbsolute : List JsPath → Type 0
  AreAbsolute = All (λ k. to_absolute native.node k ≡ k)

  cons_if :
      (b : Bool) (k : JsPath) (ks : List JsPath)
      → to_absolute native.node k ≡ k
      → AreAbsolute ks
      → AreAbsolute (if b then k ∷ ks else ks)
  cons_if true k ks h hs = (h, hs)
  cons_if false k ks h hs = hs

  pub redundant-AreAbsolute :
      (p : JsPath) (ss : Dict JsPath ℤ) → IsAbsolute ss → AreAbsolute (redundant p ss)
  unfolding redundant
  redundant-AreAbsolute p [] a = tt
  redundant-AreAbsolute p ((k, h) ∷ ss) (e, a) =
      cons_if (starts_with k p && not (k == p)) k (redundant p ss) e (redundant-AreAbsolute p ss a)

  stop-streams :
      (o : Option ℤ) (s : Watcher)
      → ((stop native o s).streams ≡ s.streams) × ((stop native o s).is_closed ≡ s.is_closed)
  stop-streams none s = (refl, refl)
  stop-streams (some h) s = elim (Bool-cases s.monitor_closed) [
    | inl y ↦ simp y (refl, refl)
    | inr n ↦ simp n (refl, refl)
  ]

  module _ (s : Watcher) (k : JsPath) (open_ : s.is_closed ≡ false)
      (e : to_absolute native.node k ≡ k) where
    abbrev pub without : Watcher
    without = record s { watched = taken_out native k s.watched; streams = erase k s.streams }

    pub unregister-open : unregister native k s ≡ stop native (lookup k s.streams) without
    unfolding unregister
    unregister-open = rw (e, open_) refl

    pub unregister-streams :
        ((unregister native k s).streams ≡ erase k s.streams)
        × ((unregister native k s).is_closed ≡ false)
    unregister-streams =
        let (f, g) = stop-streams (lookup k s.streams) without in
        (
          ap (λ (w : Watcher). w.streams) unregister-open ∙ f,
          ap (λ (w : Watcher). w.is_closed) unregister-open ∙ g ∙ open_,
        )

  lookup-unregister_all :
      (k : JsPath) (ps : List JsPath) (s : Watcher)
      → s.is_closed ≡ false
      → AreAbsolute ps
      → lookup k (unregister_all native ps s).streams
        ≡ (if has_path k ps then none else lookup k s.streams)
  unfolding unregister_all
  lookup-unregister_all k [] s open_ a = refl
  lookup-unregister_all k (p ∷ ps) s open_ (e, a) =
      let (f, g) = unregister-streams s p open_ e in
      ground (
        arith,
        lookup-unregister_all k ps (unregister native p s) g a,
        lookup-erase k p s.streams,
        f,
      )

  module _ (s : Watcher) (p : JsPath) (open_ : s.is_closed ≡ false) (a : IsAbsolute s.streams)
      (t : IsApart s.streams) where
    abbrev cleaned : Dict JsPath ℤ
    cleaned = (remove_redundant_streams native p s).streams

    -- What is left was there and is not below the path.
    cleaned-lookup :
        (k : JsPath) (h : ℤ)
        → lookup k cleaned ≡ some h
        → (lookup k s.streams ≡ some h) × (below p k ≡ false)
    unfolding remove_redundant_streams
    cleaned-lookup k h e =
        let f =
          lookup-unregister_all k (redundant p s.streams) s open_
            (redundant-AreAbsolute p s.streams a) in
        (
          ground (arith, f, e),
          elim (Bool-cases (below p k)) [
            | inr n ↦ n
            | inl y ↦ ground (arith, f, e, redundant-has_path p k h s.streams)
          ],
        )

    module _ (i : ℤ) (none_above : find p s.streams ≡ none) where
      abbrev put : Dict JsPath ℤ
      put = insert p i cleaned

      was_there :
          (k : JsPath) (h : ℤ)
          → (k == p) ≡ false
          → lookup k put ≡ some h
          → (lookup k s.streams ≡ some h) × (below p k ≡ false)
      was_there k h n e = cleaned-lookup k h (ground (arith, lookup-insert k p i cleaned, e, n))

      not_above :
          (k l : JsPath) (j : ℤ)
          → k ≡ p
          → (l == p) ≡ false
          → lookup l put ≡ some j
          → starts_with k l ≡ true
          → (k == l) ≡ true
      not_above k l j x y f under =
          let (g, n) = was_there l j y f in
          let no_prefix = find-none p l j s.streams none_above g in cc

      not_below :
          (k l : JsPath) (h : ℤ)
          → (k == p) ≡ false
          → l ≡ p
          → lookup k put ≡ some h
          → starts_with k l ≡ true
          → (k == l) ≡ true
      not_below k l h x y e under =
          let (g, n) = was_there k h x e in ground (arith, n, ap (starts_with k) (sym y) ∙ under, x)

      put-IsApart : IsApart put
      put-IsApart k l h j e f under = elim (Bool-cases (k == p)) [
        | inl x ↦ elim (Bool-cases (l == p)) [
          | inl y ↦ ground (arith, ==→≡ k p x, ==→≡ l p y, ==_refl p)
          | inr y ↦ not_above k l j (==→≡ k p x) y f under
        ]
        | inr x ↦ elim (Bool-cases (l == p)) [
          | inl y ↦ not_below k l h x (==→≡ l p y) e under
          | inr y ↦ t k l h j (was_there k h x e).0 (was_there l j y f).0 under
        ]
      ]

  erase-IsAbsolute : (p : JsPath) (ss : Dict JsPath ℤ) → IsAbsolute ss → IsAbsolute (erase p ss)
  unfolding erase
  erase-IsAbsolute p [] a = tt
  erase-IsAbsolute p ((k, h) ∷ ss) (e, a) = elim (Bool-cases (p == k)) [
    | inl y ↦ rw y (erase-IsAbsolute p ss a)
    | inr n ↦ rw n (e, erase-IsAbsolute p ss a)
  ]

  insert-IsAbsolute :
      (p : JsPath) (i : ℤ) (ss : Dict JsPath ℤ)
      → to_absolute native.node p ≡ p
      → IsAbsolute ss
      → IsAbsolute (insert p i ss)
  unfolding insert
  insert-IsAbsolute p i [] e a = (e, tt)
  insert-IsAbsolute p i ((k, h) ∷ ss) e (f, a) = elim (Bool-cases (p == k)) [
    | inl y ↦ rw y (e, a)
    | inr n ↦ rw n (f, insert-IsAbsolute p i ss e a)
  ]

  unregister_all-IsAbsolute :
      (ps : List JsPath) (s : Watcher)
      → s.is_closed ≡ false
      → AreAbsolute ps
      → IsAbsolute s.streams
      → IsAbsolute (unregister_all native ps s).streams
  unfolding unregister_all
  unregister_all-IsAbsolute [] s open_ b a = a
  unregister_all-IsAbsolute (p ∷ ps) s open_ (e, b) a =
      let (f, g) = unregister-streams s p open_ e in
      unregister_all-IsAbsolute ps (unregister native p s) g b
        (subst IsAbsolute (sym f) (erase-IsAbsolute p s.streams a))

  -- The streams are apart, and their paths absolute.
  abbrev pub IsSound : Watcher → Type 0
  IsSound s = IsApart s.streams × IsAbsolute s.streams

  if_answer :
      (b : Bool) (x y : Answer × Watcher)
      → IsSound x.1
      → IsSound y.1
      → IsSound (if b then x else y).1
  if_answer true x y h k = h
  if_answer false x y h k = k

  created-IsSound :
      (p : JsPath) (s : Watcher) (o : Option ℤ)
      → s.is_closed ≡ false
      → to_absolute native.node p ≡ p
      → find p s.streams ≡ none
      → IsSound s
      → IsSound (created native p s o).1
  unfolding remove_redundant_streams
  created-IsSound p s none open_ e f sound = sound
  created-IsSound p s (some h) open_ e f (t, a) = (
    put-IsApart s p open_ a t h f,
    insert-IsAbsolute p h (remove_redundant_streams native p s).streams e (
        unregister_all-IsAbsolute (redundant p s.streams) s open_
          (redundant-AreAbsolute p s.streams a) a),
  )

  streamed-IsSound :
      (p : JsPath) (s : Watcher) (o : Option (JsPath × ℤ))
      → s.is_closed ≡ false
      → to_absolute native.node p ≡ p
      → find p s.streams ≡ o
      → IsSound s
      → IsSound (streamed native p s o).1
  streamed-IsSound p s (some (k, h)) open_ e f sound = sound
  streamed-IsSound p s none open_ e f sound =
      if_answer s.monitor_closed (illegal_state, s) (created native p s (native.create_stream p))
        sound (created-IsSound p s (native.create_stream p) open_ e f sound)

  -- Let the watcher be open, and the path's absolute form be absolute. Then a registration keeps it true
  -- that the paths of the streams are absolute and none of them has another as a prefix.
  pub register-IsSound :
      (p : JsPath) (n : ℤ) (s : Watcher)
      → to_absolute native.node (to_absolute native.node p) ≡ to_absolute native.node p
      → s.is_closed ≡ false
      → IsSound s
      → IsSound (register native p n s).1
  unfolding register
  register-IsSound p n s absolute open_ sound =
      let q = to_absolute native.node p in
      streamed-IsSound q (record s { watched = enrolled native q n s.watched }) (find q s.streams)
        open_ absolute refl sound

  -- A watcher that was open and is closed throws at every registration.
  pub close-register :
      (p : JsPath) (n : ℤ) (s : Watcher)
      → s.is_closed ≡ false
      → (register native p n (close s)).0 ≡ illegal_state
  unfolding close register find
  close-register p n s open_ = rw open_ refl

-- ===== src/NioPathWatcher/Closed.antt =====
-- The open monitors of a service, while it runs and once it is closed.
use file_tree_views.Base.{
  ℕ, ◌≡◌, refl, sym, ◌∙◌, Bool, true, false, not, ◌&&◌, ◌||◌, Option, none, some, List, Str, [],
  ◌∷◌, All, str_eq, ◌==◌, ==_refl, ==→≡, nat_eq, if◌then◌else◌, arith, Bool-cases, inl, inr, ◌≢◌,
}
use file_tree_views.Base.Dict.{Dict, lookup, insert, erase, lookup-insert, lookup-erase}
use file_tree_views.Either.{Either, left, right, IoException, file_system_loop}
use file_tree_views.Path.{JsPath, starts_with}
use file_tree_views.DirectoryTree.Sorting.{sort}
use file_tree_views.DirectoryTree.Specific.{sort_back}
use file_tree_views.NioPathWatcher.Service.{
  Watched, invalid, monitor, Service, Disk, is_opened, shut, Answer, failed, begun, give_up, judged,
  known_or, register_impl, real_or, register, close_watched, on_error, close_loop, by_path_down,
  close,
}

-- The monitor that is watching a path is the one of the map.
abbrev pub IsMonitored : ℕ → Service → Type 0
IsMonitored i s = (p : JsPath) × (lookup p s.monitors ≡ some (monitor i p))

-- Every open monitor is in the map, under its path.
abbrev pub IsTracked : Service → Type 0
IsTracked s = (i : ℕ) → is_opened i s.opened ≡ true → IsMonitored i s

is_opened-shut :
    (i j : ℕ) (js : List ℕ) → is_opened i (shut j js) ≡ (not (nat_eq i j) && is_opened i js)
unfolding shut
is_opened-shut i j [] = ground arith
is_opened-shut i j (k ∷ js) = ground (arith, is_opened-shut i j js)

closed_already :
    (i j : ℕ) (js : List ℕ)
    → is_opened j js ≡ false
    → is_opened i js ≡ (not (nat_eq i j) && is_opened i js)
closed_already i j [] n = ground arith
closed_already i j (k ∷ js) n = ground (arith, closed_already i j js)

second_true : (a b : Bool) → (a && b) ≡ true → b ≡ true
second_true a b e = ground arith

same_closed : (i j : ℕ) (b : Bool) → j ≡ i → (not (nat_eq i j) && b) ≢ true
same_closed i j b e h = ground arith

numbers : (i j : ℕ) (p q : JsPath) → monitor i p ≡ monitor j q → i ≡ j
numbers i j p q e = cc

-- A watched directory is not the monitor with this number.
IsNot : ℕ → Watched → Type 0
IsNot i w = (p : JsPath) → w ≢ monitor i p

is_opened-close :
    (i j : ℕ) (q : JsPath) (s : Service)
    → is_opened i (close_watched (monitor j q) s).opened
      ≡ (not (nat_eq i j) && is_opened i s.opened)
unfolding close_watched
is_opened-close i j q s = elim (Bool-cases (is_opened j s.opened)) [
  | inl y ↦ simp y (is_opened-shut i j s.opened)
  | inr n ↦ simp n (closed_already i j s.opened n)
]

close_watched-opened :
    (i : ℕ) (w : Watched) (s : Service)
    → is_opened i (close_watched w s).opened ≡ true
    → IsNot i w × (is_opened i s.opened ≡ true)
unfolding close_watched IsNot
close_watched-opened i invalid s h = (λ p e. cc, h)
close_watched-opened i (monitor j q) s h =
    let e = is_opened-close i j q s in
    (
      λ p f. same_closed i j (is_opened i s.opened) (numbers j i q p f) (sym e ∙ h),
      second_true (not (nat_eq i j)) (is_opened i s.opened) (sym e ∙ h),
    )

close_loop-opened :
    (i : ℕ) (ws : Dict JsPath Watched) (s : Service)
    → is_opened i (close_loop ws s).opened ≡ true
    → All (λ (k, w). IsNot i w) ws × (is_opened i s.opened ≡ true)
unfolding close_loop
close_loop-opened i [] s h = (tt, h)
close_loop-opened i ((k, w) ∷ ws) s h =
    let (hs, o) = close_loop-opened i ws (close_watched w s) h in
    let (n, r) = close_watched-opened i w s o in ((n, hs), r)

lookup-IsNot :
    (i : ℕ) (p : JsPath) (ws : Dict JsPath Watched)
    → All (λ (k, w). IsNot i w) ws
    → lookup p ws ≢ some (monitor i p)
unfolding lookup IsNot
lookup-IsNot i p [] h e = cc
lookup-IsNot i p ((k, w) ∷ ws) (n, h) e = elim (Bool-cases (p == k)) [
  | inl y ↦ n p (ground arith)
  | inr m ↦ lookup-IsNot i p ws h (ground arith)
]

-- In a service whose open monitors are all in its map, closing it leaves none of them open.
pub close-none_opened : (s : Service) → IsTracked s → (i : ℕ) → is_opened i (close s).opened ≡ false
unfolding close
close-none_opened s tracked i =
    elim (Bool-cases (is_opened i (close_loop (sort by_path_down s.monitors) s).opened)) [
      | inr n ↦ n
      | inl y ↦
          let (h, o) = close_loop-opened i (sort by_path_down s.monitors) s y in
          let (p, e) = tracked i o in
          absurd (
            lookup-IsNot i p s.monitors (sort_back by_path_down (λ (k, w). IsNot i w) s.monitors h)
              e)
    ]

opened_before :
    (i k : ℕ) (js : List ℕ)
    → nat_eq i k ≡ false
    → (nat_eq i k || is_opened i js) ≡ true
    → is_opened i js ≡ true
opened_before i k js n o = ground arith

begun-IsTracked :
    (p : JsPath) (s : Service) (o : Option Str)
    → lookup p s.monitors ≡ none
    → IsTracked s
    → IsTracked (begun p s o).1
begun-IsTracked p s (some code) free t i o = t i o
begun-IsTracked p s none free t i o = elim (Bool-cases (nat_eq i s.next)) [
  | inl y ↦ (p, ground (arith, lookup-insert p p (monitor s.next p) s.monitors, ==_refl p))
  | inr n ↦
      let (q, e) = t i (opened_before i s.next s.opened n o) in
      (q, ground (arith, lookup-insert q p (monitor s.next p) s.monitors, ==→≡ q p, e))
]

give_up-IsTracked :
    (p : JsPath) (s : Service)
    → lookup p s.monitors ≡ none
    → IsTracked s
    → IsTracked (give_up p s).1
give_up-IsTracked p s free t i o =
    let (q, e) = t i o in (q, ground (arith, lookup-insert q p invalid s.monitors, ==→≡ q p, e))

judged-IsTracked :
    (disk : Disk) (p : JsPath) (s : Service) (o : Either IoException (Bool × Bool))
    → lookup p s.monitors ≡ none
    → IsTracked s
    → IsTracked (judged disk p s o).1
judged-IsTracked disk p s (left x) free t = t
judged-IsTracked disk p s (right (true, false)) free t = begun-IsTracked p s (disk.watch p) free t
judged-IsTracked disk p s (right (true, true)) free t = give_up-IsTracked p s free t
judged-IsTracked disk p s (right (false, l)) free t = give_up-IsTracked p s free t

known_or-IsTracked :
    (fresh : Answer) (p : JsPath) (s : Service) (o : Option Watched)
    → lookup p s.monitors ≡ o
    → (lookup p s.monitors ≡ none → IsTracked fresh.1)
    → IsTracked s
    → IsTracked (known_or fresh s o).1
known_or-IsTracked fresh p s none e h t = h e
known_or-IsTracked fresh p s (some w) e h t = t

if_answer :
    (b : Bool) (x y : Answer) → IsTracked x.1 → IsTracked y.1 → IsTracked (if b then x else y).1
if_answer true x y h k = h
if_answer false x y h k = k

register-IsTracked :
    (disk : Disk) (p : JsPath) (s : Service) → IsTracked s → IsTracked (register disk p s).1
unfolding register register_impl
register-IsTracked disk p s t =
    if_answer
      (starts_with p (real_or p (disk.to_real_path p))
        && not (p == real_or p (disk.to_real_path p)))
      (left (failed (file_system_loop p)), s) (register_impl disk p s) t
      (known_or-IsTracked (judged disk p s (disk.attributes p)) p s (lookup p s.monitors) refl
        (λ free. judged-IsTracked disk p s (disk.attributes p) free t) t)

numbers_at :
    (i j : ℕ) (p q : JsPath) (s : Service)
    → lookup p s.monitors ≡ some (monitor i p)
    → lookup q s.monitors ≡ some (monitor j q)
    → q ≡ p
    → i ≡ j
numbers_at i j p q s own e y = cc

other_path :
    (i j : ℕ) (p q : JsPath) (s : Service) (b : Bool)
    → lookup p s.monitors ≡ some (monitor i p)
    → lookup q s.monitors ≡ some (monitor j q)
    → (not (nat_eq j i) && b) ≡ true
    → (q == p) ≡ false
other_path i j p q s b own e f = elim (Bool-cases (q == p)) [
  | inr n ↦ n
  | inl y ↦ absurd (same_closed j i b (numbers_at i j p q s own e (==→≡ q p y)) f)
]

-- What is left open is still in the map once the path of a closed monitor leaves it.
others-IsTracked :
    (i : ℕ) (p : JsPath) (s : Service) (ms : Dict JsPath Watched)
    → lookup p s.monitors ≡ some (monitor i p)
    → ((q : JsPath) → (q == p) ≡ false → lookup q ms ≡ lookup q s.monitors)
    → IsTracked s
    → IsTracked (record s { opened = shut i s.opened; monitors = ms })
others-IsTracked i p s ms own same t j o =
    let f = sym (is_opened-shut j i s.opened) ∙ o in
    let (q, e) = t j (second_true (not (nat_eq j i)) (is_opened j s.opened) f) in
    (q, same q (other_path i j p q s (is_opened j s.opened) own e f) ∙ e)

-- Registering a path, an error of a monitor that the map has under its path, and closing such a monitor
-- keep every open monitor in the map.
pub register-on_error-IsTracked :
    (disk : Disk) (p q : JsPath) (i : ℕ) (s : Service)
    → IsTracked s
    → lookup q s.monitors ≡ some (monitor i q)
    → IsTracked (register disk p s).1
      × IsTracked (on_error disk i q s).1
      × IsTracked (close_watched (monitor i q) s)
unfolding on_error close_watched
register-on_error-IsTracked disk p q i s t own = (
  register-IsTracked disk p s t,
  others-IsTracked i q s (insert q invalid s.monitors) own
      (λ r n. ground (arith, lookup-insert r q invalid s.monitors)) t,
  elim (Bool-cases (is_opened i s.opened)) [
    | inl y ↦ simp y (
        others-IsTracked i q s (erase q s.monitors) own
          (λ r n. ground (arith, lookup-erase r q s.monitors)) t)
    | inr n ↦ simp n t
  ],
)

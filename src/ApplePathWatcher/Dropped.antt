-- ===== src/ApplePathWatcher/Dropped.antt =====
-- What a registration does to the registrations below it.
use file_tree_views.Base.{
  ◌≡◌, refl, ap, ◌∙◌, Bool, true, false, Option, none, some, List, [], ◌∷◌, str_eq, if◌then◌else◌,
  arith, Bool-cases, inl, inr,
}
use file_tree_views.Base.Int.{ℤ}
use file_tree_views.Base.Dict.{lookup, erase, lookup-erase}
use file_tree_views.Path.{JsPath, to_absolute}
use file_tree_views.ApplePathWatcher.Streams.{
  Watcher, Native, Answer, illegal_state, find, redundant, stop, unregister, unregister_all,
  remove_redundant_streams, streamed, created, enrolled, register,
}
use file_tree_views.ApplePathWatcher.Apart.{
  below, has_path, redundant-has_path, IsAbsolute, AreAbsolute, redundant-AreAbsolute,
  unregister-open, unregister-streams, without,
}

if_no {ℓ} : {A : Type ℓ} (b : Bool) (x y : A) → b ≡ false → (if b then x else y) ≡ y
if_no true x y h = cc
if_no false x y h = refl

module _ (native : Native) (owned : native.is_managed ≡ false) where
  stop-watched : (o : Option ℤ) (s : Watcher) → (stop native o s).watched ≡ s.watched
  stop-watched none s = refl
  stop-watched (some h) s = elim (Bool-cases s.monitor_closed) [
    | inl y ↦ simp y refl
    | inr n ↦ simp n refl
  ]

  unregister-watched :
      (s : Watcher) (k : JsPath)
      → s.is_closed ≡ false
      → to_absolute native.node k ≡ k
      → (unregister native k s).watched ≡ erase k s.watched
  unregister-watched s k open_ e =
      ap (λ (w : Watcher). w.watched) (unregister-open native s k open_ e)
      ∙ stop-watched (lookup k s.streams) (without native s k open_ e)
      ∙ if_no native.is_managed s.watched (erase k s.watched) owned

  lookup-unregister_all :
      (k : JsPath) (ps : List JsPath) (s : Watcher)
      → s.is_closed ≡ false
      → AreAbsolute native ps
      → lookup k (unregister_all native ps s).watched
        ≡ (if has_path k ps then none else lookup k s.watched)
  unfolding unregister_all
  lookup-unregister_all k [] s open_ a = refl
  lookup-unregister_all k (p ∷ ps) s open_ (e, a) =
      let (f, g) = unregister-streams native s p open_ e in
      ground (
        arith,
        lookup-unregister_all k ps (unregister native p s) g a,
        lookup-erase k p s.watched,
        unregister-watched s p open_ e,
      )

  -- Take a watcher with a registry of its own that is open, with the streams at absolute paths, and
  -- register a path that no stream's path is a prefix of and for which the native module gives a
  -- stream. A directory below it that has a stream is registered no more afterwards, whatever the two
  -- depths are.
  pub register-dropped :
      (p k : JsPath) (n : ℤ) (h i : ℤ) (s : Watcher)
      → s.is_closed ≡ false
      → s.monitor_closed ≡ false
      → native.create_stream (to_absolute native.node p) ≡ some i
      → IsAbsolute native s.streams
      → find (to_absolute native.node p) s.streams ≡ none
      → lookup k s.streams ≡ some h
      → below (to_absolute native.node p) k ≡ true
      → lookup k (register native p n s).1.watched ≡ none
  unfolding register remove_redundant_streams
  register-dropped p k n h i s open_ live streams_it a free e under =
      let q = to_absolute native.node p in
      let t = record s { watched = enrolled native q n s.watched } in
      ap (λ o. lookup k (streamed native q t o).1.watched) free
      ∙ ap (λ (r : Answer × Watcher). lookup k r.1.watched)
          (if_no s.monitor_closed (illegal_state, t) (created native q t (native.create_stream q))
            live)
      ∙ ap (λ (o : Option ℤ). lookup k (created native q t o).1.watched) streams_it
      ∙ lookup-unregister_all k (redundant q s.streams) t open_
          (redundant-AreAbsolute native q s.streams a)
      ∙ ap (λ b. if b then none else lookup k t.watched)
          (redundant-has_path q k h s.streams e under)

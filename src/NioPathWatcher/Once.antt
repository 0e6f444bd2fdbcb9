-- ===== src/NioPathWatcher/Once.antt =====
-- The events that the observers get for a path.
use file_tree_views.Base.{
  ◌≡◌, Bool, not, ◌&&◌, none, List, [], ◌∷◌, All, str_eq, ==_refl, ==→≡, if◌then◌else◌, arith,
  Bool-cases, inl, inr,
}
use file_tree_views.Base.Dict.{Dict, lookup, NodupKeys}
use file_tree_views.Path.{JsPath}
use file_tree_views.TypedPath.{TypedPath}
use file_tree_views.Event.{Kind, Event}
use file_tree_views.NioPathWatcher.Callbacks.{is_handled, callback_loop, run_callbacks}

-- The paths of events with their kinds.
abbrev pub kinds : List Event → Dict JsPath Kind
kinds [] = []
kinds (e ∷ es) = (e.typed_path.path, e.kind) ∷ kinds es

-- An event's path is the one that its path is typed with.
abbrev pub IsTyped : (JsPath → TypedPath) → List Event → Type 0
IsTyped typed_path_at = All (λ e. (typed_path_at e.typed_path.path).path ≡ e.typed_path.path)

module _ (accept : JsPath → Bool) (typed_path_at : JsPath → TypedPath) where
  lookup-callback_loop :
      (p : JsPath) (seen : List JsPath) (es : List Event)
      → IsTyped typed_path_at es
      → lookup p (kinds (callback_loop accept typed_path_at seen es))
        ≡ (if accept p && not (is_handled p seen) then lookup p (kinds es) else none)
  unfolding callback_loop lookup
  lookup-callback_loop p seen [] h = ground arith
  lookup-callback_loop p seen (e ∷ es) (t, h) =
      let q = e.typed_path.path in
      ground (
        arith,
        lookup-callback_loop p seen es h,
        lookup-callback_loop p (q ∷ seen) es h,
        t,
        ==→≡ p q,
        ==_refl p,
      )

  NodupKeys-callback_loop :
      (seen : List JsPath) (es : List Event)
      → IsTyped typed_path_at es
      → NodupKeys (kinds (callback_loop accept typed_path_at seen es))
  unfolding callback_loop lookup
  NodupKeys-callback_loop seen [] h = tt
  NodupKeys-callback_loop seen (e ∷ es) (t, h) =
      let q = e.typed_path.path in
      elim (Bool-cases (accept q && not (is_handled q seen))) [
        | inr n ↦ rw n (NodupKeys-callback_loop seen es h)
        | inl y ↦ rw y (
          ground (arith, lookup-callback_loop q (q ∷ seen) es h, t, ==_refl q),
          NodupKeys-callback_loop (q ∷ seen) es h,
        )
      ]

  -- Told of events whose paths are typed as they are, the observers get for each path that the registry
  -- accepts the kind of the first event about it, for no other path an event, and no two events about
  -- one path.
  pub lookup-run_callbacks :
      (p : JsPath) (es : List Event)
      → IsTyped typed_path_at es
      → (lookup p (kinds (run_callbacks accept typed_path_at es))
          ≡ (if accept p then lookup p (kinds es) else none))
        × NodupKeys (kinds (run_callbacks accept typed_path_at es))
  unfolding run_callbacks
  lookup-run_callbacks p es h =
      (ground (arith, lookup-callback_loop p [] es h), NodupKeys-callback_loop [] es h)

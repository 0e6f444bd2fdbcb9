-- ===== src/NioPathWatcher/Callbacks.antt =====
-- `runCallbacks`.
use file_tree_views.Base.{Bool, false, not, ◌&&◌, ◌||◌, List, [], ◌∷◌, str_eq, ◌==◌, if◌then◌else◌}
use file_tree_views.Path.{JsPath}
use file_tree_views.TypedPath.{TypedPath}
use file_tree_views.Event.{Event}

-- `handled.add(path)` gives whether the path was not there.
abbrev pub is_handled : JsPath → List JsPath → Bool
is_handled p [] = false
is_handled p (q ∷ qs) = p == q || is_handled p qs

module _ (accept : JsPath → Bool) (typed_path_at : JsPath → TypedPath) where
  unfoldable pub callback_loop : List JsPath → List Event → List Event
  callback_loop seen [] = []
  callback_loop seen (e ∷ es) =
      let p = e.typed_path.path in
      let fresh = accept p && not (is_handled p seen) in
      let rest = callback_loop (if fresh then p ∷ seen else seen) es in
      if fresh then record { typed_path = typed_path_at p; kind = e.kind } ∷ rest else rest

  -- `runCallbacks(events)`: the events that the observers get.
  unfoldable pub run_callbacks : List Event → List Event
  unfolding callback_loop
  run_callbacks es = callback_loop [] es

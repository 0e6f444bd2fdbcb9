-- ===== src/Tests/Notifying.antt =====
-- Examples of the theorems on entries, changes and observers.
use file_tree_views.Base.{ℕ, ◌≡◌, refl, true, false, [], ◌∷◌, str_eq, All}
use file_tree_views.Base.Int.{int_eq}
use file_tree_views.Base.Dict.{Dict, lookup, NodupKeys}
use file_tree_views.Path.{JsPath, to_absolute}
use file_tree_views.TypedPath.{TypedPath}
use file_tree_views.Entry.{Entry, valid}
use file_tree_views.Changes.{diff_maps, observe, tell_all, no_updates}
use file_tree_views.Changes.Replay.{replay, IsKeyed, replay-diff_maps}
use file_tree_views.Changes.Delivery.{replay-observe}
use file_tree_views.Tests.{posix, b_path, c_path}

abbrev file_at : JsPath → TypedPath
file_at p = record {
  path = p;
  exists = true;
  is_directory = false;
  is_file = true;
  is_symbolic_link = false;
}

-- The file `/a/b` changes and `/a/c` goes away.
abbrev old_map : Dict JsPath (Entry ℕ)
old_map = (b_path, valid (file_at b_path) 1) ∷ (c_path, valid (file_at c_path) 2) ∷ []

abbrev new_map : Dict JsPath (Entry ℕ)
new_map = (b_path, valid (file_at b_path) 3) ∷ []

old-IsKeyed : IsKeyed old_map
old-IsKeyed = (refl, (refl, tt))

new_distinct : NodupKeys new_map
unfolding lookup
new_distinct = (refl, tt)

replay-diff_maps_example :
    lookup c_path (replay old_map (diff_maps old_map new_map)) ≡ lookup c_path new_map
replay-diff_maps_example =
    replay-diff_maps old_map new_map old-IsKeyed (refl, tt) new_distinct c_path

old_absolute : All (λ (p, e). to_absolute posix p ≡ p) old_map
unfolding to_absolute
old_absolute = (refl, (refl, tt))

replay-observe_example :
    lookup c_path (replay old_map (observe posix (tell_all no_updates (diff_maps old_map new_map))))
    ≡ lookup c_path new_map
replay-observe_example =
    replay-observe posix old_map new_map old-IsKeyed (refl, tt) new_distinct old_absolute c_path

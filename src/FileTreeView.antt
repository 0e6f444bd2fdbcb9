-- ===== src/FileTreeView.antt =====
-- com/swoval/files/SimpleFileTreeView.scala, as it stands in files/js/npm/files.js
-- (`SimpleFileTreeView`, `SimpleFileTreeView$Lister`): listing a directory of the file system.
pub mod Listing
pub mod Steps
pub mod Filtered
pub mod Bounded
pub mod Visited
use file_tree_views.Base.{ℕ, Bool, true, false, List, [], ◌∷◌, if◌then◌else◌}
use file_tree_views.Base.Int.{ℤ, pos, leb_ℤ}
use file_tree_views.Path.{JsPath}
use file_tree_views.TypedPath.{TypedPath}
use file_tree_views.FileTreeView.Steps.{Outcome, done, threw, exhausted, State}
use file_tree_views.FileTreeView.Listing.{Lister, fill_results}

module _ (L : Lister) where
  -- `list(path, maxDepth, filter)`, with `fuel` for the recursion of `fillResults`.
  unfoldable pub list : ℕ → JsPath → ℤ → (TypedPath → Bool) → Outcome (Unit {0})
  list fuel p depth accept =
      if leb_ℤ (pos 0) depth
      then fill_results L accept fuel p depth (record { visited = []; result = [] })
      else (let t = L.typed_path_at p in
          done tt (record { visited = []; result = if accept t then t ∷ [] else [] }))

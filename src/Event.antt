-- ===== src/Event.antt =====
-- `PathWatchers.Event` and its kinds, as they stand in files/js/npm/files.js
-- (`PathWatchers$Event`, `PathWatchers$Event$Kind`).
use file_tree_views.Base.{Bool, true, false}
use file_tree_views.TypedPath.{TypedPath}

pub data Kind : Type 0 where
  create_kind delete_kind error_kind modify_kind overflow_kind : Kind

pub record Event : Type 0 where
  pub typed_path : TypedPath
  pub kind : Kind

-- `kind == that`, for the name of the kind.
unfoldable pub is_kind : Kind → Kind → Bool
is_kind create_kind create_kind = true
is_kind delete_kind delete_kind = true
is_kind error_kind error_kind = true
is_kind modify_kind modify_kind = true
is_kind overflow_kind overflow_kind = true
is_kind a b = false

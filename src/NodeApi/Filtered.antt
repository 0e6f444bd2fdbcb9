-- ===== src/NodeApi/Filtered.antt =====
-- The filter of a caller in JavaScript.
use file_tree_views.TypedPath.{TypedPath}
use file_tree_views.CachedDirectory.Finding
use file_tree_views.CachedDirectory.Listed
use file_tree_views.DirectoryTree.Lookup
use file_tree_views.FileTreeRepository

-- ===== src/FileTreeView/Listing.antt =====
-- `SimpleFileTreeView.Listing`. The file system and the directory lister are parameters, the fields
-- of `Lister`; the constructor's flags stand beside them.
use Prim.Native.Nat.{bit_or}
use file_tree_views.Base.{
  ℕ, zero, suc, Bool, true, false, ◌&&◌, ◌||◌, List, [], ◌∷◌, ◌++◌, Str, str_eq, ◌==◌,
  if◌then◌else◌,
}
use file_tree_views.Base.Int.{ℤ, pos, negsuc, ◌+ℤ◌, ltb_ℤ, eq_ℤ, max_value, to_int32}
use file_tree_views.Either.{
  Either, left, right, IoException, no_such_file, not_directory, access_denied, file_system_loop,
  other,
}
use file_tree_views.Path.{NodePath, JsPath, sep, paths_get, to_absolute}
use file_tree_views.TypedPath.{
  TypedPath, typed_path, directory_bit, file_bit, link_bit, unknown_bit, nonexistent_bit,
}
use file_tree_views.FileTreeView.Steps.{exhausted, M, ◌>>=◌, ◌>>◌, pure, call, catching, clearing}

pub record ListResults : Type 0 where
  pub directories : List Str
  pub files : List Str
  pub symlinks : List Str

-- What `stat` tells of the target of a link.
pub record TargetAttributes : Type 0 where
  pub target_is_directory : Bool
  pub target_is_file : Bool

pub record Lister : Type 0 where
  pub node : NodePath
  pub follow_links : Bool
  pub ignore_exceptions : Bool
  -- `directoryLister.apply(dir, followLinks)`
  pub list_directory : Str → Bool → Either IoException ListResults
  -- `NioWrappers.readAttributes(path)`
  pub read_attributes : JsPath → Either IoException TargetAttributes
  -- `path.toRealPath()`
  pub to_real_path : JsPath → Either IoException JsPath
  -- `TypedPaths.get(path)`
  pub typed_path_at : JsPath → TypedPath

-- `decrement(maxDepth)`
unfoldable pub decrement : ℤ → ℤ
decrement d = if eq_ℤ d max_value then d else to_int32 (negsuc 0 +ℤ d)

abbrev contains : JsPath → List JsPath → Bool
contains p [] = false
contains p (q ∷ qs) = p == q || contains p qs

-- `visited.add(path)`
unfoldable pub visit : JsPath → M Bool
visit p s =
    if contains p s.visited then pure false s else pure true (record s { visited = p ∷ s.visited })

module _ (accept : TypedPath → Bool) where
  -- `if (filter.accept(file)) result.add(file)`
  unfoldable pub offer : TypedPath → M (Unit {0})
  offer t s = if accept t then pure tt (record s { result = s.result ++ t ∷ [] }) else pure tt s

module _ (L : Lister) where
  open L use {node, follow_links, ignore_exceptions, list_directory, read_attributes, to_real_path}

  abbrev target_kind : TargetAttributes → ℕ
  target_kind a = bit_or link_bit (
      if a.target_is_directory
      then directory_bit
      else if a.target_is_file
      then file_bit
      else unknown_bit)

  -- `getSymbolicLinkTargetKind(path, followLinks)`: a link to nothing is no link either.
  abbrev kind_answer : Either IoException TargetAttributes → Either IoException ℕ
  kind_answer (right a) = right (target_kind a)
  kind_answer (left (no_such_file m)) = right nonexistent_bit
  kind_answer (left (not_directory m)) = left (not_directory m)
  kind_answer (left (access_denied m)) = left (access_denied m)
  kind_answer (left (file_system_loop m)) = left (file_system_loop m)
  kind_answer (left (other m)) = left (other m)

  unfoldable pub link_target_kind : JsPath → Either IoException ℕ
  link_target_kind p = if follow_links then kind_answer (read_attributes p) else right link_bit

  -- `Paths.get(dir + File.separator + name)`
  unfoldable pub child_path : JsPath → Str → JsPath
  child_path dir name = paths_get node (dir ++ sep ++ name) []

  abbrev pub enters : ℤ → TypedPath → Bool
  enters depth t = t.is_directory && ltb_ℤ (pos 0) depth

  unfoldable pub is_dots : Str → Bool
  is_dots part = part == b'.' ∷ [] || part == b'.' ∷ b'.' ∷ []

  module _ (accept : TypedPath → Bool) (fill : JsPath → ℤ → M (Unit {0})) where
    -- What is done for one directory among the results.
    unfoldable pub list_subdirectory : JsPath → ℤ → Str → M (Unit {0})
    list_subdirectory dir depth part = do
      offer accept (typed_path node (child_path dir part) directory_bit)
      if ltb_ℤ (pos 0) depth then fill (child_path dir part) (decrement depth) else pure tt

    unfoldable pub directories_loop : JsPath → ℤ → List Str → M (Unit {0})
    directories_loop dir depth [] = pure tt
    directories_loop dir depth (part ∷ parts) = do
      if is_dots part then pure tt else list_subdirectory dir depth part
      directories_loop dir depth parts

    unfoldable pub files_loop : JsPath → List Str → M (Unit {0})
    files_loop dir [] = pure tt
    files_loop dir (name ∷ names) = do
      offer accept (typed_path node (child_path dir name) file_bit)
      files_loop dir names

    -- A link to a directory is entered unless its target was visited.
    unfoldable pub enter_link : JsPath → ℤ → TypedPath → M (Unit {0})
    enter_link file depth t = do
      real ← call (to_real_path t.path)
      fresh ← visit real
      if fresh then fill file (decrement depth) else pure tt

    unfoldable pub list_link : JsPath → ℤ → Str → M (Unit {0})
    list_link dir depth name = do
      kind ← call (link_target_kind (child_path dir name))
      let t = typed_path node (child_path dir name) kind
      offer accept t
      if enters depth t then enter_link (child_path dir name) depth t else pure tt

    unfoldable pub links_loop : JsPath → ℤ → List Str → M (Unit {0})
    links_loop dir depth [] = pure tt
    links_loop dir depth (name ∷ names) = do list_link dir depth name; links_loop dir depth names

    -- The body of `impl`, with `fillResults` for the recursion.
    unfoldable pub list_one : JsPath → ℤ → M (Unit {0})
    list_one dir depth = do
      results ← call (list_directory (to_absolute node dir) follow_links)
      fresh ← visit dir
      directories_loop dir depth results.directories
      files_loop dir results.files
      links_loop dir depth results.symlinks

  -- `fillResults(dir, maxDepth)`
  unfoldable pub fill_results : (TypedPath → Bool) → ℕ → JsPath → ℤ → M (Unit {0})
  fill_results accept zero dir depth s = exhausted
  fill_results accept (suc fuel) dir depth s =
      clearing (catching ignore_exceptions (list_one accept (fill_results accept fuel) dir depth)) s

-- ===== src/TypedPath.antt =====
-- com/swoval/files/TypedPaths.scala and the bits of Entries.scala, as they stand in
-- files/js/npm/files.js (`TypedPaths$`, `TypedPaths$$anon$1`, `TypedPaths$$anon$2`, `Entries$`).
-- A typed path is its path with the answers to the four questions of the interface.
pub mod Kind
use Prim.Native.Nat.{bit_or, bit_and}
use file_tree_views.Base.{ℕ, Bool, true, false, not, Option, none, some, Str, nat_eq, if◌then◌else◌}
use file_tree_views.Either.{Either, left, right, IoException}
use file_tree_views.Path.{NodePath, JsPath, to_absolute}

-- `Entries.DIRECTORY`, `FILE`, `LINK`, `UNKNOWN` and `NONEXISTENT`.
abbrev pub directory_bit : ℕ
directory_bit = 1

abbrev pub file_bit : ℕ
file_bit = 2

abbrev pub link_bit : ℕ
link_bit = 4

abbrev pub unknown_bit : ℕ
unknown_bit = 8

abbrev pub nonexistent_bit : ℕ
nonexistent_bit = 16

pub record TypedPath : Type 0 where
  pub path : JsPath
  pub exists : Bool
  pub is_directory : Bool
  pub is_file : Bool
  pub is_symbolic_link : Bool

abbrev pub has_bit : ℕ → ℕ → Bool
has_bit kind bit = not (nat_eq (bit_and kind bit) 0)

abbrev pub bit_if : Bool → ℕ → ℕ
bit_if b bit = if b then bit else 0

-- `TypedPaths.get(path, kind)`
unfoldable pub typed_path : NodePath → JsPath → ℕ → TypedPath
typed_path node p kind = record {
  path = to_absolute node p;
  exists = not (has_bit kind nonexistent_bit);
  is_directory = has_bit kind directory_bit;
  is_file = has_bit kind file_bit;
  is_symbolic_link = has_bit kind link_bit;
}

-- `TypedPaths.getDelegate(path, typedPath)`
unfoldable pub delegate : JsPath → TypedPath → TypedPath
delegate p t = record t { path = p }

-- `TypedPaths.getKind(typedPath)`
unfoldable pub get_kind : TypedPath → ℕ
get_kind t =
    bit_or
      (bit_or (bit_or (bit_if (not t.exists) nonexistent_bit) (bit_if t.is_directory directory_bit))
        (bit_if t.is_file file_bit))
      (bit_if t.is_symbolic_link link_bit)

-- What `lstat` of a path tells `Entries.getKind`: whether it is a link, whether a directory, and
-- whether what it leads to is a directory.
pub record Attributes : Type 0 where
  pub symbolic_link : Bool
  pub directory : Bool
  pub target_directory : Bool

-- `Entries.getKindFromAttrs`
unfoldable pub kind_from_attrs : Attributes → ℕ
kind_from_attrs a =
    if a.symbolic_link
    then bit_or link_bit (if a.target_directory then directory_bit else file_bit)
    else if a.directory
    then directory_bit
    else file_bit

-- `TypedPaths.get(path)`: an `IOException` of `lstat` makes a path that does not exist.
unfoldable pub typed_path_of : NodePath → JsPath → Either IoException Attributes → TypedPath
unfolding typed_path kind_from_attrs
typed_path_of node p (left e) = typed_path node p nonexistent_bit
typed_path_of node p (right a) = typed_path node p (kind_from_attrs a)

-- `TypedPaths.expanded(typedPath)`, given what `realpath` answers; `none` is an `IOException`. That a
-- typed path keeps the answer of its first call makes no difference: `real_path` answers each path
-- the same at every call.
unfoldable pub expanded : (JsPath → Option JsPath) → TypedPath → JsPath
expanded real_path t =
    if t.is_symbolic_link then elim (real_path t.path) [ none ↦ t.path | some p ↦ p ] else t.path

-- ===== src/Entry.antt =====
-- com/swoval/files/Entries.scala, as it stands in files/js/npm/files.js (`Entries$`,
-- `Entries$ValidEntry`, `Entries$InvalidEntry` and their base class).
pub mod Kept
use Prim.Native.Nat.{bit_or}
use file_tree_views.Base.{ℕ, Bool, true, false, Option, none, some, Str}
use file_tree_views.Either.{Either, left, right, IoException}
use file_tree_views.Path.{NodePath, JsPath, resolve}
use file_tree_views.TypedPath.{
  TypedPath, typed_path, bit_if, directory_bit, file_bit, link_bit, nonexistent_bit,
}

-- A typed path with the converted value, or with the exception of the conversion.
pub data Entry (T : Type 0) : Type 0 where
  valid : TypedPath → T → Entry T
  invalid : TypedPath → IoException → Entry T

-- The user's `Converter`.
abbrev pub Converter : Type 0 → Type 0
Converter T = TypedPath → Either IoException T

-- `Entries.getKind(entry)`, which has no bit for a path that does not exist.
unfoldable pub entry_kind : TypedPath → ℕ
entry_kind t =
    bit_or (bit_or (bit_if t.is_symbolic_link link_bit) (bit_if t.is_directory directory_bit))
      (bit_if t.is_file file_bit)

unfoldable pub gone_kind : TypedPath → ℕ
gone_kind t =
    bit_or
      (bit_or (bit_or nonexistent_bit (bit_if t.is_file file_bit))
        (bit_if t.is_directory directory_bit))
      (bit_if t.is_symbolic_link link_bit)

module _ {T : Type 0} where
  -- `getTypedPath`
  abbrev pub typed : Entry T → TypedPath
  typed (valid t v) = t
  typed (invalid t x) = t

  abbrev pub path_of : Entry T → JsPath
  path_of e = (typed e).path

  -- `getValue`
  abbrev pub get_value : Entry T → Either IoException T
  get_value (valid t v) = right v
  get_value (invalid t x) = left x

  -- An entry at another typed path, with the same value.
  abbrev pub at : TypedPath → Entry T → Entry T
  at t (valid s v) = valid t v
  at t (invalid s x) = invalid t x

  abbrev converted : TypedPath → Either IoException T → Entry T
  converted t (right v) = valid t v
  converted t (left x) = invalid t x

  -- `Entries.get(typedPath, converter, converterPath)`
  unfoldable pub get_entry : TypedPath → Converter T → TypedPath → Entry T
  get_entry t convert c = converted t (convert c)

module _ (node : NodePath) {T : Type 0} where
  -- `Entries.resolve(path, entry)`
  unfoldable pub resolve_entry : JsPath → Entry T → Entry T
  unfolding entry_kind
  resolve_entry p e = at (typed_path node (resolve node p (path_of e)) (entry_kind (typed e))) e

  -- `Entries.setExists(entry, false)`
  unfoldable pub set_gone : Entry T → Entry T
  unfolding gone_kind
  set_gone e = at (typed_path node (path_of e) (gone_kind (typed e))) e

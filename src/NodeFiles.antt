-- ===== src/NodeFiles.antt =====
-- The calls of Node's `fs` that nio-js makes for paths: nio-js/src/main/scala/java/nio/file/Errors.scala
-- and Files.scala, and java/io/File.scala, as they stand in files/js/npm/files.js (`Errors$`, `Files$`,
-- `File`). `fs` is the record `Fs`; what it throws is an error with a code.
pub mod Attributes
pub mod Messages
pub mod Times
use file_tree_views.Base.{Bool, false, [], ◌∷◌, ◌++◌, Str, str_eq, ◌==◌, if◌then◌else◌}
use file_tree_views.Either.{
  Either, left, right, IoException, not_directory, no_such_file, access_denied, other,
}
use file_tree_views.Path.{NodePath, JsPath, js_path}

pub record Fs : Type 0 where
  pub exists_sync : Str → Bool
  -- `statSync(path).isDirectory()`
  pub stat_is_directory : Str → Either Str Bool
  pub realpath_sync : Str → Either Str Str

abbrev enotdir : Str
enotdir = b'E' ∷ b'N' ∷ b'O' ∷ b'T' ∷ b'D' ∷ b'I' ∷ b'R' ∷ []

abbrev enoent : Str
enoent = b'E' ∷ b'N' ∷ b'O' ∷ b'E' ∷ b'N' ∷ b'T' ∷ []

abbrev eacces : Str
eacces = b'E' ∷ b'A' ∷ b'C' ∷ b'C' ∷ b'E' ∷ b'S' ∷ []

-- "Error opening file: "
abbrev opening : Str
opening =
    b'E' ∷ b'r' ∷ b'r' ∷ b'o' ∷ b'r' ∷ b' ' ∷ b'o' ∷ b'p' ∷ b'e' ∷ b'n' ∷ b'i' ∷ b'n' ∷ b'g' ∷ b' '
    ∷ b'f' ∷ b'i' ∷ b'l' ∷ b'e' ∷ b':' ∷ b' ' ∷ []

-- `Errors.rethrow(path, exception)`, by the exception's code.
unfoldable pub rethrow : JsPath → Str → IoException
rethrow p code =
    if code == enotdir
    then not_directory p
    else if code == enoent
    then no_such_file p
    else if code == eacces
    then access_denied p
    else other (opening ++ p ++ b':' ∷ b' ' ∷ b'\'' ∷ code ++ b'\'' ∷ [])

-- `Errors.wrap(path, f)`
unfoldable pub wrap : {A : Type 0} → JsPath → Either Str A → Either IoException A
unfolding rethrow
wrap p (left code) = left (rethrow p code)
wrap p (right a) = right a

module _ (node : NodePath) (fs : Fs) where
  open node use {absolute}
  open fs use {exists_sync, stat_is_directory, realpath_sync}

  -- `File.exists()`
  unfoldable pub file_exists : JsPath → Bool
  file_exists p = exists_sync (absolute p)

  -- `File.isDirectory()`, which may throw.
  unfoldable pub file_is_directory : JsPath → Either Str Bool
  unfolding file_exists
  file_is_directory p = if file_exists p then stat_is_directory p else right false

  -- `File.equals(other)`
  unfoldable pub file_equals : JsPath → JsPath → Bool
  file_equals p q = absolute p == absolute q

  abbrev or_false : Either Str Bool → Bool
  or_false (left code) = false
  or_false (right b) = b

  -- `Files.isDirectory(path)`
  unfoldable pub is_directory : JsPath → Bool
  unfolding file_is_directory
  is_directory p = or_false (file_is_directory p)

  abbrev new_path : Either IoException Str → Either IoException JsPath
  new_path (left x) = left x
  new_path (right p) = right (js_path node p)

  -- `toRealPath()`
  unfoldable pub to_real_path : JsPath → Either IoException JsPath
  unfolding wrap
  to_real_path p = new_path (wrap p (realpath_sync p))

-- ===== src/Install.antt =====
-- files/js/npm/install.js, the script that npm runs after it has unpacked the package: it builds the
-- native module on macOS and puts it into `lib`. The script is the list of its effects and how it
-- ends; what the platform and the processes answer is the record `Machine`.
use file_tree_views.Base.{
  Bool, true, false, not, Option, none, some, List, [], ◌∷◌, ◌++◌, Str, str_eq, ◌==◌, if◌then◌else◌,
}
pub mod Guarded

abbrev pub darwin : Str
darwin = b'd' ∷ b'a' ∷ b'r' ∷ b'w' ∷ b'i' ∷ b'n' ∷ []

abbrev pub cmake_js : Str
cmake_js = b'c' ∷ b'm' ∷ b'a' ∷ b'k' ∷ b'e' ∷ b'-' ∷ b'j' ∷ b's' ∷ []

abbrev pub which : Str
which = b'w' ∷ b'h' ∷ b'i' ∷ b'c' ∷ b'h' ∷ []

abbrev pub compile : Str
compile = b'c' ∷ b'o' ∷ b'm' ∷ b'p' ∷ b'i' ∷ b'l' ∷ b'e' ∷ []

abbrev pub lib : Str
lib = b'l' ∷ b'i' ∷ b'b' ∷ []

abbrev pub built_file : Str
built_file =
    b'b' ∷ b'u' ∷ b'i' ∷ b'l' ∷ b'd' ∷ b'/' ∷ b'R' ∷ b'e' ∷ b'l' ∷ b'e' ∷ b'a' ∷ b's' ∷ b'e' ∷ b'/'
    ∷ b's' ∷ b'w' ∷ b'o' ∷ b'v' ∷ b'a' ∷ b'l' ∷ b'_' ∷ b'a' ∷ b'p' ∷ b'p' ∷ b'l' ∷ b'e' ∷ b'_'
    ∷ b'f' ∷ b'i' ∷ b'l' ∷ b'e' ∷ b'_' ∷ b's' ∷ b'y' ∷ b's' ∷ b't' ∷ b'e' ∷ b'm' ∷ b'.' ∷ b'n'
    ∷ b'o' ∷ b'd' ∷ b'e' ∷ []

abbrev pub lib_file : Str
lib_file =
    b'l' ∷ b'i' ∷ b'b' ∷ b'/' ∷ b's' ∷ b'w' ∷ b'o' ∷ b'v' ∷ b'a' ∷ b'l' ∷ b'_' ∷ b'a' ∷ b'p' ∷ b'p'
    ∷ b'l' ∷ b'e' ∷ b'_' ∷ b'f' ∷ b'i' ∷ b'l' ∷ b'e' ∷ b'_' ∷ b's' ∷ b'y' ∷ b's' ∷ b't' ∷ b'e'
    ∷ b'm' ∷ b'.' ∷ b'n' ∷ b'o' ∷ b'd' ∷ b'e' ∷ []

-- What `console.log` prints, each with the text that the message quotes.
pub data Message : Type 0 where
  not_running : Str → Message
  not_installed : Message
  stderr_is : Str → Message
  stdout_is : Str → Message

pub data Effect : Type 0 where
  log : Message → Effect
  spawn : Str → List Str → Effect
  make_directory : Str → Effect
  copy_file : Str → Str → Effect

-- `none` is the `null` of a process that could not be started.
pub record Machine : Type 0 where
  pub platform : Str
  pub which_stdout : Option Str
  pub cmake_stderr : Option Str
  pub cmake_stdout : Option Str
  pub lib_exists : Bool
  -- Whether `copyFileSync` finds the file that was built.
  pub was_built : Bool

-- The effects, and whether the script ends without an exception.
pub record Run : Type 0 where
  pub effects : List Effect
  pub ended : Bool

abbrev pub before : List Effect → Run → Run
before es r = record r { effects = es ++ r.effects }

abbrev pub stops : Bool → Run
stops ok = record { effects = []; ended = ok }

-- The last two lines. `copyFileSync` throws when there is no file to copy.
unfoldable pub place : Machine → Run
place m =
    before (if m.lib_exists then [] else make_directory lib ∷ []) (
      if m.was_built then before (copy_file built_file lib_file ∷ []) (stops true) else stops false)

-- `toString()` of `null` throws.
abbrev pub told_stdout : Machine → Option Str → Run
told_stdout m none = stops false
told_stdout m (some s) = before (log (stdout_is s) ∷ []) (place m)

abbrev pub told_stderr : Machine → Option Str → Run
told_stderr m none = stops false
told_stderr m (some s) = before (log (stderr_is s) ∷ []) (told_stdout m m.cmake_stdout)

unfoldable pub build : Machine → Run
build m = before (spawn cmake_js (compile ∷ []) ∷ []) (told_stderr m m.cmake_stderr)

abbrev pub checked : Machine → Option Str → Run
checked m none = stops false
checked m (some s) = if s == [] then before (log not_installed ∷ []) (stops true) else build m

-- The whole script.
unfoldable pub install : Machine → Run
install m =
    if not (m.platform == darwin)
    then before (log (not_running m.platform) ∷ []) (stops true)
    else before (spawn which (cmake_js ∷ []) ∷ []) (checked m m.which_stdout)

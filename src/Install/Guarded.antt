-- ===== src/Install/Guarded.antt =====
-- What the script copies and makes, and how it ends.
use file_tree_views.Base.{
  ◌≡◌, refl, Bool, true, false, not, ◌&&◌, ◌||◌, Option, none, some, List, [], ◌∷◌, Str, str_eq,
  ◌==◌, ==_refl, if◌then◌else◌, arith, Bool-cases, inl, inr, ◌∙◌,
}
use file_tree_views.Install.{
  told_stdout, told_stderr, checked, stops, before, not_running, not_installed, which, cmake_js,
  log, Effect, spawn, make_directory, copy_file, Machine, install, build, place, darwin, Run, lib,
  built_file, lib_file,
}

-- Whether every file that is copied is the built module, its copy stands in `lib`, and `lib` is a
-- directory then.
abbrev pub copies_into : Bool → List Effect → Bool
copies_into there [] = true
copies_into there (log x ∷ es) = copies_into there es
copies_into there (spawn p xs ∷ es) = copies_into there es
copies_into there (make_directory d ∷ es) = copies_into (there || d == lib) es
copies_into there (copy_file a b ∷ es) =
    (there && (a == built_file && b == lib_file)) && copies_into there es

-- Whether no directory is made but `lib`, where it is not there.
abbrev pub makes_lib : Bool → List Effect → Bool
makes_lib there [] = true
makes_lib there (log x ∷ es) = makes_lib there es
makes_lib there (spawn p xs ∷ es) = makes_lib there es
makes_lib there (make_directory d ∷ es) = (d == lib && not there) && makes_lib true es
makes_lib there (copy_file a b ∷ es) = makes_lib there es

abbrev pub copies : List Effect → Bool
copies [] = false
copies (log x ∷ es) = copies es
copies (spawn p xs ∷ es) = copies es
copies (make_directory d ∷ es) = copies es
copies (copy_file a b ∷ es) = true

abbrev is_empty_text : Option Str → Bool
is_empty_text none = false
is_empty_text (some s) = s == []

abbrev is_some_text : Option Str → Bool
is_some_text none = false
is_some_text (some s) = not (s == [])

abbrev is_some : Option Str → Bool
is_some none = false
is_some (some s) = true

-- Whether the script gets as far as its last line.
abbrev pub reaches : Machine → Bool
reaches m =
    m.platform == darwin
    && (is_some_text m.which_stdout
        && (is_some m.cmake_stderr && (is_some m.cmake_stdout && m.was_built)))

-- Whether the script has nothing to do: another platform, or `which` prints nothing.
abbrev pub is_left_out : Machine → Bool
is_left_out m = not (m.platform == darwin) || is_empty_text m.which_stdout

-- Of a run: whether it copies, what, and whether it ends without an exception.
abbrev IsRight : Bool → Bool → Bool → Run → Type 0
IsRight there want ok r =
    (copies r.effects ≡ want)
    × (copies_into there r.effects ≡ true)
    × (makes_lib there r.effects ≡ true)
    × (r.ended ≡ ok)

place-IsRight : (m : Machine) → IsRight m.lib_exists m.was_built m.was_built (place m)
unfolding place
place-IsRight m = elim (Bool-cases m.lib_exists) [
  | inl e ↦ elim (Bool-cases m.was_built) [
    | inl b ↦ rw (e, b, ==_refl built_file, ==_refl lib_file) (refl, refl, refl, refl)
    | inr b ↦ rw (e, b) (refl, refl, refl, refl)
  ]
  | inr e ↦ elim (Bool-cases m.was_built) [
    | inl b ↦ rw (e, b, ==_refl built_file, ==_refl lib_file, ==_refl lib) (refl, refl, refl, refl)
    | inr b ↦ rw (e, b, ==_refl lib) (refl, refl, refl, refl)
  ]
]

told_stdout-IsRight :
    (m : Machine) (o : Option Str)
    → let w = is_some o && m.was_built in IsRight m.lib_exists w w (told_stdout m o)
told_stdout-IsRight m none = (refl, refl, refl, refl)
told_stdout-IsRight m (some s) = place-IsRight m

told_stderr-IsRight :
    (m : Machine) (o : Option Str)
    → let w = is_some o && (is_some m.cmake_stdout && m.was_built) in
      IsRight m.lib_exists w w (told_stderr m o)
told_stderr-IsRight m none = (refl, refl, refl, refl)
told_stderr-IsRight m (some s) = told_stdout-IsRight m m.cmake_stdout

build-IsRight :
    (m : Machine)
    → let w = is_some m.cmake_stderr && (is_some m.cmake_stdout && m.was_built) in
      IsRight m.lib_exists w w (build m)
unfolding build
build-IsRight m = told_stderr-IsRight m m.cmake_stderr

if-IsRight :
    {r ok : Bool} (m : Machine) (b : Bool)
    → IsRight m.lib_exists r ok (build m)
    → IsRight m.lib_exists
        (not b && r)
        (b || ok)
        (if b then before (log not_installed ∷ []) (stops true) else build m)
if-IsRight m true h = (refl, refl, refl, refl)
if-IsRight m false h = h

platform-IsRight :
    {r ok : Bool} (m : Machine) (b : Bool)
    → IsRight m.lib_exists r ok (checked m m.which_stdout)
    → IsRight m.lib_exists (b && r) (not b || ok) (
        if not b
        then before (log (not_running m.platform) ∷ []) (stops true)
        else before (spawn which (cmake_js ∷ []) ∷ []) (checked m m.which_stdout))
platform-IsRight m true h = h
platform-IsRight m false h = (refl, refl, refl, refl)

or_else : (b w : Bool) → (b || w) ≡ (b || (not b && w))
or_else b w = ground arith

ends_alike : (a e x : Bool) → (not a || (e || x)) ≡ ((not a || e) || (a && x))
ends_alike a e x = ground arith

checked-IsRight :
    (m : Machine) (o : Option Str)
    → let w = is_some m.cmake_stderr && (is_some m.cmake_stdout && m.was_built) in
      IsRight m.lib_exists
        (is_some_text o && w)
        (is_empty_text o || (is_some_text o && w))
        (checked m o)
checked-IsRight m none = (refl, refl, refl, refl)
checked-IsRight m (some s) =
    let (a, b, c, d) = if-IsRight m (s == []) (build-IsRight m) in
    (a, b, c, d ∙ or_else (s == []) _)

-- On every machine: the script copies the built module into `lib`, and nothing else, exactly on macOS
-- when `which` finds `cmake-js`, both outputs of the build can be read and the build left the module;
-- whenever it copies, `lib` is there; the only directory that it makes is `lib`, when that does not exist. It ends without
-- an exception exactly when it copies, on another platform, or when `which` prints nothing.
pub install-reaches :
    (m : Machine)
    → (copies (install m).effects ≡ reaches m)
      × (copies_into m.lib_exists (install m).effects ≡ true)
      × (makes_lib m.lib_exists (install m).effects ≡ true)
      × ((install m).ended ≡ (is_left_out m || reaches m))
unfolding install
install-reaches m =
    let (a, b, c, d) =
      platform-IsRight m (m.platform == darwin) (checked-IsRight m m.which_stdout) in
    (a, b, c, d ∙ ends_alike (m.platform == darwin) (is_empty_text m.which_stdout) _)

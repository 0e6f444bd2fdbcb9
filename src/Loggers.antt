-- ===== src/Loggers.antt =====
-- com/swoval/logging/Loggers.scala, as it stands in files/js/npm/files.js (`Loggers$`,
-- `Loggers$Level$`, `Loggers$LoggerImpl`): the levels, and when a debug message is printed and where.
pub mod Levels
use file_tree_views.Base.{
  ℕ, ◌+◌, Bool, true, false, ◌||◌, ◌&&◌, Option, none, some, List, [], ◌∷◌, Str, str_eq, ◌==◌, leb,
  if◌then◌else◌,
}
use file_tree_views.Base.Int.{ℤ, pos, negsuc, ltb_ℤ, leb_ℤ}

pub data Level : Type 0 where
  verbose debug info warn error : Level

-- Levels are objects, compared by identity.
unfoldable pub is_same : Level → Level → Bool
is_same verbose verbose = true
is_same debug debug = true
is_same info info = true
is_same warn warn = true
is_same error error = true
is_same a b = false

-- `compareTo`, which every level overrides.
unfoldable pub compare_to : Level → Level → ℤ
unfolding is_same
compare_to debug that =
    if is_same that verbose then pos 1 else if is_same that debug then pos 0 else negsuc 0
compare_to info that =
    if is_same that info
    then pos 0
    else if is_same that debug || is_same that verbose
    then pos 1
    else negsuc 0
compare_to warn that =
    if is_same that warn
    then pos 0
    else if (is_same that debug || is_same that info) || is_same that verbose
    then pos 1
    else negsuc 0
compare_to error that = if is_same that error then pos 0 else pos 1
compare_to verbose that = if is_same that verbose then pos 0 else negsuc 0

-- `toString`
unfoldable pub to_string : Level → Str
to_string verbose = b'V' ∷ b'E' ∷ b'R' ∷ b'B' ∷ b'O' ∷ b'S' ∷ b'E' ∷ []
to_string debug = b'D' ∷ b'E' ∷ b'B' ∷ b'U' ∷ b'G' ∷ []
to_string info = b'I' ∷ b'N' ∷ b'F' ∷ b'O' ∷ []
to_string warn = b'W' ∷ b'A' ∷ b'R' ∷ b'N' ∷ []
to_string error = b'E' ∷ b'R' ∷ b'R' ∷ b'O' ∷ b'R' ∷ []

-- `toLowerCase`, on the letters that the names of the levels have.
abbrev lower_letter : ℕ → ℕ
lower_letter c = if leb b'A' c && leb c b'Z' then c + 32 else c

unfoldable pub to_lower : Str → Str
to_lower [] = []
to_lower (c ∷ s) = lower_letter c ∷ to_lower s

abbrev verbose_text : Str
verbose_text = b'v' ∷ b'e' ∷ b'r' ∷ b'b' ∷ b'o' ∷ b's' ∷ b'e' ∷ []

abbrev debug_text : Str
debug_text = b'd' ∷ b'e' ∷ b'b' ∷ b'u' ∷ b'g' ∷ []

abbrev info_text : Str
info_text = b'i' ∷ b'n' ∷ b'f' ∷ b'o' ∷ []

abbrev warn_text : Str
warn_text = b'w' ∷ b'a' ∷ b'r' ∷ b'n' ∷ []

abbrev named : Str → Level
named s =
    if s == verbose_text
    then verbose
    else if s == debug_text
    then debug
    else if s == info_text
    then info
    else if s == warn_text
    then warn
    else error

-- `Level.fromString`
unfoldable pub from_string : Str → Level
unfolding to_lower
from_string s = named (to_lower s)

-- `Loggers.shouldLog(logger, Level.DEBUG)`, for a logger of this level.
unfoldable pub should_log : Level → Bool
unfolding compare_to
should_log level = leb_ℤ (compare_to level debug) (pos 0)

pub data Stream : Type 0 where
  info_stream error_stream : Stream

-- The stream of `LoggerImpl.debug`, for the level from which on messages are errors.
unfoldable pub debug_stream : Level → Stream
unfolding compare_to
debug_stream error_level =
    if ltb_ℤ (compare_to error_level debug) (pos 0) then error_stream else info_stream

-- The call sites: a debug message is printed on a stream, or not at all.
unfoldable pub debug_message : Level → Option Stream
unfolding should_log debug_stream
debug_message level = if should_log level then some (debug_stream error) else none

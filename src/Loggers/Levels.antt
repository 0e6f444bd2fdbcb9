-- ===== src/Loggers/Levels.antt =====
-- The order of the levels, and reading their names.
use file_tree_views.Base.{◌≡◌, refl, ℕ, none, some, leb, if◌then◌else◌, str_eq, ltb}
use file_tree_views.Base.Int.{ℤ, pos, negsuc}
use file_tree_views.Loggers.{
  Level, verbose, debug, info, warn, error, compare_to, is_same, to_string, to_lower, from_string,
  should_log, info_stream, debug_stream, debug_message,
}

-- The levels from the one that prints most to the one that prints least.
abbrev pub rank : Level → ℕ
rank verbose = 0
rank debug = 1
rank info = 2
rank warn = 3
rank error = 4

abbrev pub compare_ranks : ℕ → ℕ → ℤ
compare_ranks m n = if ltb m n then negsuc 0 else if ltb n m then pos 1 else pos 0

-- `compareTo` of two levels is the comparison of their ranks, verbose, debug, info, warn and error,
-- so it is a total order.
pub compare_to-rank : (a b : Level) → compare_to a b ≡ compare_ranks (rank a) (rank b)
unfolding compare_to is_same
compare_to-rank verbose verbose = refl
compare_to-rank verbose debug = refl
compare_to-rank verbose info = refl
compare_to-rank verbose warn = refl
compare_to-rank verbose error = refl
compare_to-rank debug verbose = refl
compare_to-rank debug debug = refl
compare_to-rank debug info = refl
compare_to-rank debug warn = refl
compare_to-rank debug error = refl
compare_to-rank info verbose = refl
compare_to-rank info debug = refl
compare_to-rank info info = refl
compare_to-rank info warn = refl
compare_to-rank info error = refl
compare_to-rank warn verbose = refl
compare_to-rank warn debug = refl
compare_to-rank warn info = refl
compare_to-rank warn warn = refl
compare_to-rank warn error = refl
compare_to-rank error verbose = refl
compare_to-rank error debug = refl
compare_to-rank error info = refl
compare_to-rank error warn = refl
compare_to-rank error error = refl

-- The name of every level is read as that level.
pub from_string-to_string : (l : Level) → from_string (to_string l) ≡ l
unfolding from_string to_string to_lower str_eq
from_string-to_string verbose = refl
from_string-to_string debug = refl
from_string-to_string info = refl
from_string-to_string warn = refl
from_string-to_string error = refl

-- A debug message is printed by the loggers of the levels verbose and debug and by no other, and then
-- on the stream for information.
pub debug_message_lem :
    (l : Level) → debug_message l ≡ (if leb (rank l) (rank debug) then some info_stream else none)
unfolding debug_message should_log debug_stream compare_to is_same
debug_message_lem verbose = refl
debug_message_lem debug = refl
debug_message_lem info = refl
debug_message_lem warn = refl
debug_message_lem error = refl

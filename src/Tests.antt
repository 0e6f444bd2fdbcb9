-- ===== src/Tests.antt =====
-- Examples of the theorems, and what they share: `path` of Node on texts that are normalised.
mod Numbers
mod Division
mod Watching
mod Views
mod Caching
mod Notifying
mod Reading
mod Linking
mod Tooling
mod Polling
mod Watchers
mod Repository
use file_tree_views.Base.{
  ℕ, Bool, true, false, List, [], ◌∷◌, ◌++◌, Str, str_eq, ◌==◌, nat_eq, if◌then◌else◌,
}
use file_tree_views.Path.{NodePath}

abbrev starts_at_root : Str → Bool
starts_at_root [] = false
starts_at_root (c ∷ s) = nat_eq c b'/'

abbrev join_name : ℕ → List Str → List Str
join_name c [] = (c ∷ []) ∷ []
join_name c (n ∷ ns) = (c ∷ n) ∷ ns

-- The texts between the slashes.
abbrev between : Str → List Str
between [] = [] ∷ []
between (c ∷ s) = if nat_eq c b'/' then [] ∷ between s else join_name c (between s)

abbrev with_slashes : List Str → Str
with_slashes [] = []
with_slashes (n ∷ []) = n
with_slashes (n ∷ m ∷ ns) = n ++ b'/' ∷ with_slashes (m ∷ ns)

abbrev all_but_last : List Str → List Str
all_but_last [] = []
all_but_last (n ∷ []) = []
all_but_last (n ∷ m ∷ ns) = n ∷ all_but_last (m ∷ ns)

abbrev last_of : List Str → Str
last_of [] = []
last_of (n ∷ []) = n
last_of (n ∷ m ∷ ns) = last_of (m ∷ ns)

abbrev ups : List Str → List Str → List Str
ups [] ns = ns
ups (m ∷ ms) ns = (b'.' ∷ b'.' ∷ []) ∷ ups ms ns

abbrev apart : List Str → List Str → List Str
apart [] ns = ns
apart (m ∷ ms) [] = ups (m ∷ ms) []
apart (m ∷ ms) (n ∷ ns) = if m == n then apart ms ns else ups (m ∷ ms) (n ∷ ns)

abbrev above_name : Str → Str
above_name [] = b'/' ∷ []
above_name (c ∷ s) = c ∷ s

abbrev pub posix : NodePath
posix = record {
  parse_root = λ s. if starts_at_root s then b'/' ∷ [] else [];
  parse_dir = λ s. with_slashes (all_but_last (between s));
  parse_base = λ s. last_of (between s);
  normalize = λ s. s;
  relative = λ s t. with_slashes (apart (between s) (between t));
  resolve = λ s t. s ++ b'/' ∷ t;
  absolute = λ s. if starts_at_root s then s else b'/' ∷ s;
  basename = λ s. last_of (between s);
  is_absolute = starts_at_root;
  dirname = λ s. above_name (with_slashes (all_but_last (between s)));
}

-- `/a`, `/a/b`, `/a/c` and `/ab`
abbrev pub a_path : Str
a_path = b'/' ∷ b'a' ∷ []

abbrev pub b_path : Str
b_path = b'/' ∷ b'a' ∷ b'/' ∷ b'b' ∷ []

abbrev pub c_path : Str
c_path = b'/' ∷ b'a' ∷ b'/' ∷ b'c' ∷ []

abbrev pub b_name : Str
b_name = b'b' ∷ []

abbrev pub c_name : Str
c_name = b'c' ∷ []

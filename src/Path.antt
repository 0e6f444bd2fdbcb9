-- ===== src/Path.antt =====
-- nio-js/src/main/scala/java/nio/file/Path.scala and Paths.scala, as they stand in
-- files/js/npm/files.js (`JSPath`, `Paths$`) on a platform that is not Windows.
-- A path is the text that `toString` gives, which is what `equals` and `hashCode` use.
-- Node's `path` module is the parameter `NodePath`.
pub mod Prefix
pub mod Names
use file_tree_views.Base.{
  ℕ, ◌+◌, Bool, true, false, ◌||◌, Option, none, some, List, [], ◌∷◌, ◌++◌, Str, ◌==◌, str_eq,
  length, map, take, drop, nat_eq, if◌then◌else◌,
}

-- What the code calls of `require("path")`. `absolute` is `resolve` of one argument.
pub record NodePath : Type 0 where
  pub parse_root : Str → Str
  pub parse_dir : Str → Str
  pub parse_base : Str → Str
  pub normalize : Str → Str
  pub relative : Str → Str → Str
  pub resolve : Str → Str → Str
  pub absolute : Str → Str
  pub basename : Str → Str
  pub is_absolute : Str → Bool
  pub dirname : Str → Str

-- `path.sep`
abbrev pub slash : ℕ
slash = b'/'

abbrev pub sep : Str
sep = slash ∷ []

abbrev pub JsPath : Type 0
JsPath = Str

-- The texts that the regular expression `(/|\\\\)$` takes off: a slash, or two backslashes.
is_separator : Str → Bool
is_separator s = s == sep || s == b'\\' ∷ b'\\' ∷ []

unfoldable pub strip_separator : Str → Str
unfolding is_separator
strip_separator [] = []
strip_separator (c ∷ s) =
    let rest = strip_separator s in if is_separator (c ∷ s) then [] else c ∷ rest

-- `String.split` on the separator, before the empty texts at the end are dropped.
unfoldable pub begin_name : ℕ → List Str → List Str
begin_name c [] = (c ∷ []) ∷ []
begin_name c (n ∷ ns) = (c ∷ n) ∷ ns

unfoldable pub split_sep : Str → List Str
unfolding begin_name
split_sep [] = [] ∷ []
split_sep (c ∷ s) =
    let rest = split_sep s in if nat_eq c slash then [] ∷ rest else begin_name c rest

unfoldable pub keep_name : Str → List Str → List Str
keep_name [] [] = []
keep_name [] (n ∷ ns) = [] ∷ n ∷ ns
keep_name (c ∷ s) ns = (c ∷ s) ∷ ns

unfoldable pub drop_trailing : List Str → List Str
unfolding keep_name
drop_trailing [] = []
drop_trailing (n ∷ ns) = keep_name n (drop_trailing ns)

unfoldable pub drop_first : List Str → List Str
drop_first [] = []
drop_first ([] ∷ ns) = ns
drop_first ((c ∷ s) ∷ ns) = (c ∷ s) ∷ ns

-- `fullPath.split(regexSep)` with an empty first part left out.
unfoldable pub split_names : Str → List Str
unfolding split_sep drop_trailing drop_first
split_names full = drop_first (drop_trailing (split_sep full))

-- `path.startsWith(other)`: a comparison of texts.
unfoldable pub starts_with : JsPath → JsPath → Bool
starts_with p q = take (length q) p == q

module _ (node : NodePath) where
  open node use {
    parse_root, parse_dir, parse_base, normalize, relative, resolve as node_resolve, absolute,
    basename, is_absolute, dirname,
  }

  -- `new JSPath(rawPath).path`
  unfoldable pub js_path : Str → JsPath
  unfolding strip_separator
  js_path raw =
      let root = parse_root raw in if raw == root then root else strip_separator (normalize raw)

  -- `new JSPath(rawPath).fullPath`
  unfoldable pub full_path : Str → Str
  full_path raw = drop (length (parse_root raw)) (parse_dir raw) ++ sep ++ parse_base raw

  -- What `iterator` walks: a new path of each of the names.
  unfoldable pub parts : JsPath → List JsPath
  unfolding full_path split_names js_path
  parts p = map js_path (split_names (full_path p))

  unfoldable pub name_count : JsPath → ℕ
  unfolding parts
  name_count p = length (parts p)

  unfoldable pub resolve : JsPath → JsPath → JsPath
  unfolding js_path
  resolve p q =
      if is_absolute p || is_absolute q
      then (if is_absolute q then q else js_path (node_resolve p q))
      else js_path (p ++ sep ++ q)

  unfoldable pub relativize : JsPath → JsPath → JsPath
  unfolding js_path
  relativize p q = js_path (relative p q)

  unfoldable pub to_absolute : JsPath → JsPath
  unfolding js_path
  to_absolute p = if is_absolute p then p else js_path (absolute p)

  unfoldable pub file_name : JsPath → JsPath
  unfolding js_path
  file_name p = js_path (basename p)

  -- `getParent()`, where `none` is `null`. Node's `dirname` gives no empty text.
  unfoldable pub parent : JsPath → Option JsPath
  unfolding js_path
  parent p = if parse_root p == dirname p then none else some (js_path (dirname p))

  -- `Paths.get(first, more)`
  unfoldable pub join : Str → List Str → Str
  join first [] = first
  join first (n ∷ ns) = first ++ sep ++ join n ns

  unfoldable pub paths_get : Str → List Str → JsPath
  unfolding js_path join
  paths_get first more = js_path (join first more)

-- ===== src/Path/Names.antt =====
-- The names that the text of a path is made of.
use file_tree_views.Base.{◌≡◌, refl, ◌≢◌, false, List, [], ◌∷◌, ◌++◌, Str, All, nat_eq, arith}
use file_tree_views.Path.{slash, split_sep, keep_name, drop_trailing, drop_first, split_names}

abbrev pub NoSlash : Str → Type 0
NoSlash = All (λ c. nat_eq c slash ≡ false)

-- A file name: not empty, and with no separator in it.
abbrev pub IsName : Str → Type 0
IsName n = (n ≢ []) × NoSlash n

-- The text of an absolute path, `/a/b/c`.
pub render : List Str → Str
render [] = []
render (n ∷ ns) = slash ∷ (n ++ render ns)

split_sep-slash : (s : Str) → split_sep (slash ∷ s) ≡ [] ∷ split_sep s
unfolding split_sep
split_sep-slash s = refl

-- A name in front of a text that starts a new name, or that ends.
split_sep-render :
    (n : Str) (ns : List Str)
    → NoSlash n
    → split_sep (n ++ render ns) ≡ n ∷ drop_first (split_sep (render ns))
unfolding split_sep render drop_first
split_sep-render [] [] h = refl
split_sep-render [] (m ∷ ns) h = refl
split_sep-render (c ∷ n) ns (h, hs) = rw (split_sep-render n ns hs) (ground arith)

split_sep_names : (ns : List Str) → All IsName ns → split_sep (render ns) ≡ [] ∷ ns
unfolding render
split_sep_names [] h = unfold split_sep in refl
split_sep_names (n ∷ ns) (h, hs) =
    rw (split_sep-slash, split_sep-render n ns h.1, split_sep_names ns hs)
      (unfold drop_first in refl)

keep_name_ne : (n : Str) (ns : List Str) → n ≢ [] → keep_name n ns ≡ n ∷ ns
unfolding keep_name
keep_name_ne [] ns h = absurd (h refl)
keep_name_ne (c ∷ n) ns h = refl

drop_trailing_names : (ns : List Str) → All IsName ns → drop_trailing ns ≡ ns
unfolding drop_trailing
drop_trailing_names [] h = refl
drop_trailing_names (n ∷ ns) (h, hs) = rw (drop_trailing_names ns hs, keep_name_ne n ns h.0)

drop_first_names : (ns : List Str) → drop_first (keep_name [] ns) ≡ ns
unfolding drop_first keep_name
drop_first_names [] = refl
drop_first_names (n ∷ ns) = refl

-- Splitting the text `/n₁/n₂/…` of any list of file names, each of them not empty and without a
-- separator, gives the list back; `/`-less empty text gives no name.
pub split_names-render : (ns : List Str) → All IsName ns → split_names (render ns) ≡ ns
unfolding split_names
split_names-render ns h =
    rw (split_sep_names ns h, drop_trailing) (rw (drop_trailing_names ns h) (drop_first_names ns))

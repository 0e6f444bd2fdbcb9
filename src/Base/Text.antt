-- ===== src/Base/Text.antt =====
-- Texts written as literals.
use Prim.Native.Char.{code}
use Prim.Native.String.{String}
use file_tree_views.Base.{Str, [], ◌∷◌}

-- The code units of a text of ASCII characters.
abbrev pub codes : String → Str
codes String.[] = []
codes (String.◌∷◌ c s) = code c ∷ codes s

-- ===== src/DirectoryTree/Sorting.antt =====
-- `String.compareTo` as an order of texts, and `Collections.sort`, which is stable.
use file_tree_views.Base.{Bool, true, false, List, [], ◌∷◌, Str, ltb, nat_eq, if◌then◌else◌}

-- `left < right`
unfoldable pub less : Str → Str → Bool
less [] [] = false
less [] (d ∷ t) = true
less (c ∷ s) [] = false
less (c ∷ s) (d ∷ t) =
    let rest = less s t in if ltb c d then true else if nat_eq c d then rest else false

module _ {A : Type 0} (before : A → A → Bool) where
  -- An element goes before the first that it must precede.
  unfoldable pub place : A → List A → List A
  place x [] = x ∷ []
  place x (y ∷ ys) = let rest = place x ys in if before y x then y ∷ rest else x ∷ y ∷ ys

  unfoldable pub sort : List A → List A
  unfolding place
  sort [] = []
  sort (x ∷ xs) = place x (sort xs)

-- ===== src/Long/Values.antt =====
-- The integer that two words stand for, and what comparing and converting make of it.
use file_tree_views.Base.{ℕ, ◌+◌, ◌-◌, ◌*◌, ◌<◌, ◌≤◌, ◌≡◌, ◌↔◌, arith, ltb, if◌then◌else◌}
use file_tree_views.Base.Int.{ℤ, pos, negsuc, ltb_ℤ, ◌<ℤ◌}
use file_tree_views.Long.{
  Long, word, half_word, negative, compare_long, to_double, from_double, less_than, negate,
}

abbrev pub IsLong : Long → Type 0
IsLong l = (l.lo < word) × (l.hi < word)

-- The 64 bits as one number.
abbrev pub pattern_of : Long → ℕ
pattern_of l = l.hi * word + l.lo

abbrev pub value : Long → ℤ
value l =
    if ltb l.hi half_word then pos (pattern_of l) else negsuc (18446744073709551615 - pattern_of l)

abbrev pub max_long : ℕ
max_long = 9223372036854775807

-- The nearest integer that fits.
abbrev pub clamp : ℤ → ℤ
clamp z =
    if ltb_ℤ z (negsuc max_long)
    then negsuc max_long
    else if ltb_ℤ (pos max_long) z
    then pos max_long
    else z

-- The result of a comparison is the order of `a` and `b`.
abbrev pub Orders : ℤ → ℤ → ℤ → Type 0
Orders r a b = ((r ≡ negsuc 0) ↔ (a <ℤ b)) × ((r ≡ pos 0) ↔ (a ≡ b)) × ((r ≡ pos 1) ↔ (b <ℤ a))

-- Two longs compare as the integers that they stand for.
pub compare_long-value :
    (l r : Long) → IsLong l → IsLong r → Orders (compare_long l r) (value l) (value r)
unfolding compare_long
compare_long-value l r p q = ground arith

pub to_double-value : (l : Long) → IsLong l → to_double l ≡ value l
unfolding to_double
to_double-value l p = ground arith

-- The long of a whole double is the nearest one, and its words are in range.
pub from_double-clamp : (z : ℤ) → (value (from_double z) ≡ clamp z) × IsLong (from_double z)
unfolding from_double
from_double-clamp (pos n) = ground arith
from_double-clamp (negsuc n) = ground arith

pub less_than-value : (l r : Long) → IsLong l → IsLong r → less_than l r ≡ ltb_ℤ (value l) (value r)
unfolding less_than
less_than-value l r p q = ground arith

pub negate-value :
    (l : Long)
    → IsLong l
    → pattern_of l ≤ max_long
    → (value (negate l) ≡ negative (pattern_of l)) × IsLong (negate l)
unfolding negate
negate-value l p h = ground arith

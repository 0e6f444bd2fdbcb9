-- ===== src/Long.antt =====
-- Java's `long`, as scalajs.runtime.RuntimeLong holds it in files/js/npm/files.js: two integers of
-- 32 bits. An integer of 32 bits is modelled by its bit pattern, a number below 2 ^ 32. A double
-- here is a whole number; one of at most 53 bits is held exactly.
pub mod Values
pub mod Products
pub mod Division
use file_tree_views.Base.{
  ℕ, suc, ◌+◌, ◌-◌, ◌*◌, ◌/◌, ◌%◌, Bool, true, false, not, ◌&&◌, ltb, nat_eq, if◌then◌else◌,
}
use file_tree_views.Base.Int.{ℤ, pos, negsuc, ltb_ℤ, leb_ℤ}

abbrev pub word : ℕ
word = 4294967296

abbrev pub half_word : ℕ
half_word = 2147483648

-- `P` and `ga`
pub record Long : Type 0 where
  pub lo : ℕ
  pub hi : ℕ

-- `new RuntimeLong(lo, hi)`
abbrev pub long : ℕ → ℕ → Long
long l h = record { lo = l; hi = h }

-- The pattern of the integer `-n`.
abbrev pub minus : ℕ → ℕ
minus n = word - n

-- `a + b | 0`
abbrev pub add32 : ℕ → ℕ → ℕ
add32 a b = (a + b) % word

-- `-a | 0`
abbrev pub neg32 : ℕ → ℕ
neg32 a = (word - a) % word

-- `~a`
abbrev pub not32 : ℕ → ℕ
not32 a = word - 1 - a

-- `Math.imul(a, b)`
abbrev pub imul : ℕ → ℕ → ℕ
imul a b = (a * b) % word

-- `-2147483648 ^ a`
abbrev pub flip : ℕ → ℕ
flip a = (a + half_word) % word

-- `a < b`
abbrev pub slt : ℕ → ℕ → Bool
slt a b = ltb (flip a) (flip b)

-- `a >> 31`
abbrev pub sign_word : ℕ → ℕ
sign_word a = if ltb a half_word then 0 else word - 1

-- `-l`
unfoldable pub negate : Long → Long
negate l = long (neg32 l.lo) (if nat_eq l.lo 0 then neg32 l.hi else not32 l.hi)

-- `l` is less than `r`.
unfoldable pub less_than : Long → Long → Bool
less_than l r = if nat_eq l.hi r.hi then slt (flip l.lo) (flip r.lo) else slt l.hi r.hi

-- `RuntimeLong.compare`
unfoldable pub compare_long : Long → Long → ℤ
compare_long l r =
    if nat_eq l.hi r.hi
    then (if nat_eq l.lo r.lo
        then pos 0
        else if slt (flip l.lo) (flip r.lo)
        then negsuc 0
        else pos 1)
    else if slt l.hi r.hi
    then negsuc 0
    else pos 1

-- `new RuntimeLong(value)` of an `Int`
unfoldable pub of_int : ℕ → Long
of_int a = long a (sign_word a)

-- The integer `-n`.
abbrev pub negative : ℕ → ℤ
negative n = if nat_eq n 0 then pos 0 else negsuc (n - 1)

-- `RuntimeLong.toDouble`
unfoldable pub to_double : Long → ℤ
unfolding negate
to_double l =
    if slt l.hi 0 then negative (word * (negate l).hi + (negate l).lo) else pos (word * l.hi + l.lo)

-- `z | 0`
abbrev pub word_of : ℤ → ℕ
word_of (pos n) = n % word
word_of (negsuc n) = word - 1 - n % word

-- `z / 4294967296 | 0`
abbrev pub high_word : ℤ → ℕ
high_word (pos n) = n / word % word
high_word (negsuc n) = neg32 (suc n / word % word)

-- `RuntimeLong.fromDouble`
unfoldable pub from_double : ℤ → Long
from_double z =
    if ltb_ℤ z (negsuc 9223372036854775807)
    then long 0 half_word
    else if leb_ℤ (pos 9223372036854775808) z
    then long (word - 1) (half_word - 1)
    else long (word_of z) (
        if ltb_ℤ z (pos 0) && not (nat_eq (word_of z) 0)
        then add32 (word - 1) (high_word z)
        else high_word z)

-- `a * b`, by halves of the low words.
unfoldable pub multiply : Long → Long → Long
multiply a b =
    let h = a.lo % 65536 in
    let f = a.lo / 65536 in
    let k = b.lo % 65536 in
    let m = b.lo / 65536 in
    let n = imul h k in
    let p = imul f k in
    let q = imul h m in
    let r = add32 (n / 65536) q in
    long (add32 n (add32 p q * 65536 % word)) (
      add32 (add32 (add32 (add32 (imul a.lo b.hi) (imul a.hi b.lo)) (imul f m)) (r / 65536))
        (add32 (r % 65536) p / 65536))

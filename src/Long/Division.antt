-- ===== src/Long/Division.antt =====
-- `RuntimeLong.divide` and `remainder`: by integers of 32 bits or by doubles where they hold the
-- operands exactly, by shifts where the divisor is a power of two, and else by a long division of the
-- patterns. A double of at most 53 bits divides by another and is cut off like a number.
pub mod Signs
pub mod Small
use Prim.Native.Nat.{bit_and, bit_or}
use file_tree_views.Base.{
  ℕ, zero, suc, ◌+◌, ◌-◌, ◌*◌, ◌/◌, ◌%◌, ◌^◌, Bool, true, false, not, ◌&&◌, ◌||◌, Option, none,
  some, nat_eq, ltb, leb, if◌then◌else◌,
}
use file_tree_views.Base.Int.{ℤ, pos, negsuc}
use file_tree_views.Long.{
  Long, long, word, half_word, flip, slt, negate, negative, sign_word, word_of, add32, of_int,
}

-- `Math.clz32`, as it is made where it is missing.
abbrev pub shifted : ℕ → ℕ → ℕ × ℕ → ℕ × ℕ
shifted mask n (a, b) = if nat_eq (bit_and a mask) 0 then (a * 2 ^ n % word, b + n) else (a, b)

abbrev pub counted : ℕ × ℕ → ℕ
counted (a, b) = if ltb a half_word then b else b - 1

unfoldable pub clz32 : ℕ → ℕ
clz32 a =
    if nat_eq a 0
    then 32
    else counted (
        shifted 3221225472 2
          (shifted 4026531840 4 (shifted 4278190080 8 (shifted 4294901760 16 (a, 1)))))

-- `a << n` and `a >>> n`, which take the count modulo 32.
abbrev pub shl : ℕ → ℕ → ℕ
shl a n = a * 2 ^ (n % 32) % word

abbrev pub shr : ℕ → ℕ → ℕ
shr a n = a / 2 ^ (n % 32)

-- `l` is at least `r`, without signs.
unfoldable pub at_least : Long → Long → Bool
at_least l r =
    if nat_eq l.hi r.hi
    then leb (flip (flip r.lo)) (flip (flip l.lo))
    else leb (flip (flip r.hi)) (flip (flip l.hi))

-- `l - r`
unfoldable pub minus_long : Long → Long → Long
minus_long l r =
    let d = (l.lo + word - r.lo) % word in
    let h = (l.hi + word - r.hi) % word in
    long d (if slt (flip l.lo) (flip d) then add32 (word - 1) h else h)

-- The leading zeros of a pattern.
unfoldable pub leading_zeros : Long → ℕ
unfolding clz32
leading_zeros l = if nat_eq l.hi 0 then 32 + clz32 l.lo else clz32 l.hi

-- The divisor, `k` bits to the left.
unfoldable pub shifted_left : ℕ → Long → Long
shifted_left k l =
    if ltb (k % 64) 32
    then long (shl l.lo k) (bit_or (shr (l.lo / 2) (31 - k % 32)) (shl l.hi k))
    else long 0 (shl l.lo k)

-- The divisor, one bit to the right.
unfoldable pub halved : Long → Long
halved l = long (bit_or (l.lo / 2) (shl l.hi 31)) (l.hi / 2)

-- `quotient |= 1 << k`
unfoldable pub with_bit : ℕ → Long → Long
with_bit k q =
    if ltb k 32 then long (bit_or q.lo (2 ^ k)) q.hi else long q.lo (bit_or q.hi (2 ^ (k - 32)))

-- The loop of the long division, with the quotient and the rest. The number of rounds left is one
-- more than the bit that is next.
unfoldable pub divide_loop : ℕ → Long → Long → Long → Long × Long
unfolding at_least minus_long halved with_bit
divide_loop zero divisor quotient rest = (quotient, rest)
divide_loop (suc k) divisor quotient rest =
    let fits = at_least rest divisor in
    let next =
      divide_loop k (halved divisor) (if fits then with_bit k quotient else quotient)
        (if fits then minus_long rest divisor else rest) in
    if ltb rest.hi 2097152 then (quotient, rest) else next

-- The pattern of a long as a double.
abbrev pub unsigned_double : Long → ℕ
unsigned_double l = word * l.hi + l.lo

-- `q / 4294967296 | 0` and `q | 0`
abbrev pub of_double : ℕ → Long
of_double q = long (q % word) (q / word % word)

-- The sum of the quotient and of what the doubles give.
abbrev pub plus_long : Long → Long → Long
plus_long l r =
    let d = add32 l.lo r.lo in
    long d (if slt (flip d) (flip l.lo) then add32 1 (add32 l.hi r.hi) else add32 l.hi r.hi)

abbrev pub quotient_end : Long → Long × Long → Long
quotient_end divisor (quotient, rest) =
    if at_least rest divisor
    then plus_long quotient (of_double (unsigned_double rest / unsigned_double divisor))
    else quotient

abbrev pub rest_end : Long → Long × Long → Long
rest_end divisor (quotient, rest) =
    if at_least rest divisor
    then of_double (unsigned_double rest % unsigned_double divisor)
    else rest

-- The rounds of the loop: none if the divisor has fewer leading zeros.
abbrev pub rounds : Long → Long → ℕ
rounds a b = suc (leading_zeros b) - leading_zeros a

-- `unsignedDivModHelper`
unfoldable pub long_division : Long → Long → Long × Long
unfolding divide_loop leading_zeros shifted_left
long_division a b = divide_loop (rounds a b) (shifted_left (rounds a b - 1) b) (long 0 0) a

-- `(a & -1 + a) === 0`
abbrev pub is_power : ℕ → Bool
is_power a = nat_eq (bit_and a ((a + word - 1) % word)) 0

-- The quotient of two patterns that stand for numbers that are not negative.
unfoldable pub unsigned_quotient : Long → Long → Long
unfolding long_division at_least clz32
unsigned_quotient a b =
    if ltb a.hi 2097152
    then (if ltb b.hi 2097152 then of_double (unsigned_double a / unsigned_double b) else long 0 0)
    else if nat_eq b.hi 0 && is_power b.lo
    then (let s = 31 - clz32 b.lo in
        long (bit_or (shr a.lo s) (shl (shl a.hi 1) (31 - s))) (shr a.hi s))
    else if nat_eq b.lo 0 && is_power b.hi
    then long (shr a.hi (31 - clz32 b.hi)) 0
    else quotient_end b (long_division a b)

unfoldable pub unsigned_remainder : Long → Long → Long
unfolding long_division at_least
unsigned_remainder a b =
    if ltb a.hi 2097152
    then (if ltb b.hi 2097152 then of_double (unsigned_double a % unsigned_double b) else a)
    else if nat_eq b.hi 0 && is_power b.lo
    then long (bit_and a.lo (b.lo - 1)) 0
    else if nat_eq b.lo 0 && is_power b.hi
    then long a.lo (bit_and a.hi (b.hi - 1))
    else rest_end b (long_division a b)

-- The number that an integer of 32 bits stands for.
abbrev pub int_value : ℕ → ℤ
int_value a = if ltb a half_word then pos a else negsuc (word - 1 - a)

-- `a / b | 0` and `a % b | 0`
abbrev pub int_quotient : ℤ → ℤ → ℤ
int_quotient (pos n) (pos d) = pos (n / d)
int_quotient (pos n) (negsuc d) = negative (n / suc d)
int_quotient (negsuc n) (pos d) = negative (suc n / d)
int_quotient (negsuc n) (negsuc d) = pos (suc n / suc d)

abbrev pub int_remainder : ℤ → ℤ → ℤ
int_remainder (pos n) (pos d) = pos (n % d)
int_remainder (pos n) (negsuc d) = pos (n % suc d)
int_remainder (negsuc n) (pos d) = negative (suc n % d)
int_remainder (negsuc n) (negsuc d) = negative (suc n % suc d)

-- A long that is an integer of 32 bits.
abbrev pub is_int : Long → Bool
is_int l = nat_eq l.hi (sign_word l.lo)

abbrev pub is_negative : Long → Bool
is_negative l = slt l.hi 0

abbrev pub absolute : Long → Long
absolute l = if is_negative l then negate l else l

abbrev pub same : Bool → Bool → Bool
same a b = if a then b else not b

-- The quotient of two integers of 32 bits.
abbrev pub divide_ints : ℕ → ℕ → Long
divide_ints a b =
    if nat_eq a half_word && nat_eq b (word - 1)
    then long half_word 0
    else of_int (word_of (int_quotient (int_value a) (int_value b)))

-- `divide(a, b)`; `none` is the `ArithmeticException`.
unfoldable pub divide : Long → Long → Option Long
unfolding unsigned_quotient negate of_int
divide a b =
    if nat_eq b.lo 0 && nat_eq b.hi 0
    then none
    else if is_int a
    then some (
        if is_int b
        then divide_ints a.lo b.lo
        else if (nat_eq a.lo half_word && nat_eq b.lo half_word) && nat_eq b.hi 0
        then long (word - 1) (word - 1)
        else long 0 0)
    else some (
        let q = unsigned_quotient (absolute a) (absolute b) in
        if same (is_negative a) (is_negative b) then q else negate q)

-- `remainder(a, b)`
unfoldable pub remainder : Long → Long → Option Long
unfolding unsigned_remainder negate of_int
remainder a b =
    if nat_eq b.lo 0 && nat_eq b.hi 0
    then none
    else if is_int a
    then some (
        if is_int b
        then (if nat_eq b.lo (word - 1)
            then long 0 0
            else of_int (word_of (int_remainder (int_value a.lo) (int_value b.lo))))
        else if (nat_eq a.lo half_word && nat_eq b.lo half_word) && nat_eq b.hi 0
        then long 0 0
        else a)
    else some (
        let r = unsigned_remainder (absolute a) (absolute b) in
        if is_negative a then negate r else r)

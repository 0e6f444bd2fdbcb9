-- ===== src/Base/Int.antt =====
-- Signed integers over the native numbers, and their wrap-around at 32 bits.
use file_tree_views.Base.{
  Eq, ℕ_discrete, ℕ, suc, ◌+◌, ◌-◌, ◌%◌, ◌≤◌, ◌≡◌, Bool, arith, ltb, leb, nat_eq, if◌then◌else◌,
}

-- `negsuc n` is -(n + 1).
pub data ℤ : Type 0 where
  pos : ℕ → ℤ
  negsuc : ℕ → ℤ

abbrev pub pos_part : ℤ → ℕ
pos_part (pos n) = n
pos_part (negsuc n) = 0

abbrev pub neg_part : ℤ → ℕ
neg_part (pos n) = 0
neg_part (negsuc n) = suc n

-- a - b, as an integer.
abbrev pub sub_ℕ : ℕ → ℕ → ℤ
sub_ℕ a b = if leb b a then pos (a - b) else negsuc (b - a - 1)

infixl 65 ◌+ℤ◌ ◌-ℤ◌
infix 50 ◌≤ℤ◌ ◌<ℤ◌
abbrev pub ◌+ℤ◌ : ℤ → ℤ → ℤ
a +ℤ b = sub_ℕ (pos_part a + pos_part b) (neg_part a + neg_part b)

abbrev pub ◌-ℤ◌ : ℤ → ℤ → ℤ
a -ℤ b = sub_ℕ (pos_part a + neg_part b) (neg_part a + pos_part b)

abbrev pub ◌≤ℤ◌ : ℤ → ℤ → Type 0
a ≤ℤ b = pos_part a + neg_part b ≤ pos_part b + neg_part a

abbrev pub ◌<ℤ◌ : ℤ → ℤ → Type 0
a <ℤ b = suc (pos_part a + neg_part b) ≤ pos_part b + neg_part a

abbrev pub ltb_ℤ : ℤ → ℤ → Bool
ltb_ℤ a b = ltb (pos_part a + neg_part b) (pos_part b + neg_part a)

abbrev pub leb_ℤ : ℤ → ℤ → Bool
leb_ℤ a b = leb (pos_part a + neg_part b) (pos_part b + neg_part a)

-- `Integer.MAX_VALUE` and `Integer.MIN_VALUE`.
abbrev pub max_value : ℤ
max_value = pos 2147483647

abbrev pub min_value : ℤ
min_value = negsuc 2147483647

-- `x | 0`: the integer with the same low 32 bits that lies between the two bounds.
unfoldable pub to_int32 : ℤ → ℤ
to_int32 (pos n) = sub_ℕ ((n + 2147483648) % 4294967296) 2147483648
to_int32 (negsuc n) = sub_ℕ (4294967295 - (n + 2147483648) % 4294967296) 2147483648

-- A value that fits 32 bits is its own.
pub to_int32_fits : (z : ℤ) → min_value ≤ℤ z → z ≤ℤ max_value → to_int32 z ≡ z
unfolding to_int32
to_int32_fits (pos n) l h = ground arith
to_int32_fits (negsuc n) l h = ground arith

-- Whatever was computed, the result fits.
pub to_int32_bounds : (z : ℤ) → (min_value ≤ℤ to_int32 z) × (to_int32 z ≤ℤ max_value)
unfolding to_int32
to_int32_bounds (pos n) = ground arith
to_int32_bounds (negsuc n) = ground arith

abbrev pub eq_ℤ : ℤ → ℤ → Bool
eq_ℤ a b = nat_eq (pos_part a + neg_part b) (pos_part b + neg_part a)

ℤ_dec : Discrete ℤ
ℤ_dec = hlevel ℕ_discrete

instance unfoldable pub int_eq : Eq ℤ
unfolding ℤ_dec ℕ_discrete
int_eq = record { dec = ℤ_dec }

-- ===== src/Long/Division/Signs.antt =====
-- Quotients of numbers with signs, and of integers of 32 bits.
use file_tree_views.Base.{
  ℕ, zero, suc, ◌+◌, ◌-◌, ◌/◌, ◌<◌, ◌≤◌, ◌≡◌, ◌∙◌, ap, arith, Bool, true, false, nat_eq, ◌&&◌,
  if◌then◌else◌, Bool-cases, inl, inr,
}
use file_tree_views.Base.Int.{ℤ, pos, negsuc, ◌≤ℤ◌, pos_part, neg_part, eq_ℤ}
use file_tree_views.Long.{Long, word, half_word, negate, negative, of_int, word_of}
use file_tree_views.Long.Values.{IsLong, value, pattern_of}
use file_tree_views.Long.Division.{
  divide_ints, int_value, int_quotient, is_int, is_negative, absolute, same,
}

-- At most 53 bits.
abbrev pub IsSmall : Long → Type 0
IsSmall l = pattern_of (absolute l) < 9007199254740992

pub div-le : (n d : ℕ) → 0 < d → n / d ≤ n
div-le n d h = grind arith

pub div-lt : (n d : ℕ) → n < d → n / d ≡ 0
div-lt n d h = grind arith

div_self : (n : ℕ) → 0 < n → n / n ≡ 1
div_self n h = grind arith

div-le-half : (n d : ℕ) → 1 < d → n / d ≤ n / 2
div-le-half n d h = grind arith

-- A number with its sign.
abbrev pub signed : Bool → ℕ → ℤ
signed s n = if s then negative n else pos n

absolute-value :
    (l : Long)
    → IsLong l
    → (value l ≡ signed (is_negative l) (pattern_of (absolute l))) × IsLong (absolute l)
unfolding negate
absolute-value l p = ground arith

int_quotient-signed :
    (s t : Bool) (n d : ℕ)
    → 0 < d
    → int_quotient (signed s n) (signed t d) ≡ signed (if same s t then false else true) (n / d)
int_quotient-signed false false n d h = ground arith
int_quotient-signed false true n (suc d) h = ground arith
int_quotient-signed false true n zero h = elim h [ ]
int_quotient-signed true true zero zero h = elim h [ ]
int_quotient-signed true true (suc n) zero h = elim h [ ]
int_quotient-signed true false zero d h = ground (arith, div-lt 0 d h)
int_quotient-signed true false (suc n) d h = ground arith
int_quotient-signed true true zero (suc d) h = ground (arith, div-lt 0 (suc d) h)
int_quotient-signed true true (suc n) (suc d) h = ground arith

of_int-value :
    (z : ℤ) → negsuc 2147483647 ≤ℤ z → z ≤ℤ pos 2147483647 → value (of_int (word_of z)) ≡ z
unfolding of_int
of_int-value (pos n) l h = ground arith
of_int-value (negsuc n) l h = ground arith

pub int-value : (l : Long) → IsLong l → is_int l ≡ true → value l ≡ int_value l.lo
int-value l p h = ground arith

quotient_fits :
    (z w : ℤ)
    → negsuc 2147483647 ≤ℤ z
    → z ≤ℤ pos 2147483647
    → 0 < pos_part w + neg_part w
    → (eq_ℤ z (negsuc 2147483647) && eq_ℤ w (negsuc 0)) ≡ false
    → (negsuc 2147483647 ≤ℤ int_quotient z w) × (int_quotient z w ≤ℤ pos 2147483647)
quotient_fits (pos n) (pos d) l u h o = ground (arith, div-le n d)
quotient_fits (pos n) (negsuc d) l u h o = ground (arith, div-le n (suc d))
quotient_fits (negsuc n) (pos d) l u h o = ground (arith, div-le (suc n) d)
quotient_fits (negsuc n) (negsuc zero) l u h o = ground arith
quotient_fits (negsuc n) (negsuc (suc d)) l u h o =
    ground (arith, div-le-half (suc n) (suc (suc d)))

-- Two integers of 32 bits.
pub divide_ints-value :
    (x y : ℕ)
    → x < word
    → y < word
    → 0 < y
    → value (divide_ints x y) ≡ int_quotient (int_value x) (int_value y)
divide_ints-value x y p q h = elim (Bool-cases (nat_eq x half_word && nat_eq y (word - 1))) [
  | inl e ↦ ground (arith, e)
  | inr e ↦
      let f =
        quotient_fits (int_value x) (int_value y) (ground arith) (ground arith) (ground arith)
          (ground (arith, e)) in
      rw e (of_int-value (int_quotient (int_value x) (int_value y)) f.0 f.1)
]

-- The quotient by the patterns and the signs.
pub value_quotient :
    (a b : Long)
    → IsLong a
    → IsLong b
    → 0 < pattern_of b
    → int_quotient (value a) (value b)
      ≡ signed
          (if same (is_negative a) (is_negative b) then false else true)
          (pattern_of (absolute a) / pattern_of (absolute b))
unfolding negate
value_quotient a b p q h =
    let x = pattern_of (absolute a) in
    let y = pattern_of (absolute b) in
    ap (λ (z : ℤ). int_quotient z (value b)) (absolute-value a p).0
    ∙ ap (λ (z : ℤ). int_quotient (signed (is_negative a) x) z) (absolute-value b q).0
    ∙ int_quotient-signed (is_negative a) (is_negative b) x y (ground arith)

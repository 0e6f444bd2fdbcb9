-- ===== src/TimeUnit/Scaled.antt =====
-- A product that `scale` gives, as an integer.
use file_tree_views.Base.{
  ℕ, suc, Bool-cases, inl, inr, true, false, ◌+◌, ◌-◌, ◌*◌, ◌/◌, ◌<◌, ◌≤◌, ◌≡◌, sym, ◌∙◌, ap, arith,
  ltb, if◌then◌else◌,
}
use file_tree_views.Base.Int.{ℤ, pos, negsuc, ltb_ℤ}
use file_tree_views.Long.{Long, half_word, negative, negate, less_than, multiply}
use file_tree_views.Long.Values.{IsLong, value, pattern_of, max_long, less_than-value, negate-value}
use file_tree_views.Long.Products.{multiply-pattern}
use file_tree_views.TimeUnit.{
  TimeUnit, nanoseconds, microseconds, milliseconds, seconds, minutes, hours, days, scale,
}

-- A unit in nanoseconds.
abbrev pub size : TimeUnit → ℕ
size nanoseconds = 1
size microseconds = 1000
size milliseconds = 1000000
size seconds = 1000000000
size minutes = 60000000000
size hours = 3600000000000
size days = 86400000000000

-- The nearest integer to `z` between `Long.MAX_VALUE` and its negative.
abbrev pub saturate : ℤ → ℤ
saturate z =
    if ltb_ℤ z (negative max_long)
    then negative max_long
    else if ltb_ℤ (pos max_long) z
    then pos max_long
    else z

abbrev pub times : ℤ → ℕ → ℤ
times (pos n) d = pos (n * d)
times (negsuc n) d = negative (suc n * d)

-- Division towards zero.
abbrev pub quot : ℤ → ℕ → ℤ
quot (pos n) d = pos (n / d)
quot (negsuc n) d = negative (suc n / d)

-- What the integer `z` of the unit `u` is in the unit `v`.
abbrev pub in_unit : TimeUnit → TimeUnit → ℤ → ℤ
in_unit u v z =
    if ltb (size v) (size u) then saturate (times z (size u / size v)) else quot z (size v / size u)

-- A factor with the greatest number that may be multiplied by it.
pub record IsFactor (b most : Long) : Type 0 where
  pub IsLong_b : IsLong b
  pub IsLong_most : IsLong most
  pub positive : 0 < pattern_of b
  pub enough : pattern_of most * pattern_of b ≤ max_long
  pub least : max_long < (pattern_of most + 1) * pattern_of b

pub most-le : (m d : ℕ) → 0 < d → m * d ≤ max_long → m ≤ max_long
most-le m d p h = grind arith

pub mul_mono : (a b d : ℕ) → a ≤ b → a * d ≤ b * d
mul_mono a b d h = grind arith

mul_pos : (a d : ℕ) → 0 < a → 0 < d → 0 < a * d
mul_pos a d p q = grind arith

sum_times : (x y t d : ℕ) → y + x ≡ t → y * d + x * d ≡ t * d
sum_times x y t d h = grind (arith, ap (λ (s : ℕ). s * d) h)

module _ (m d : ℕ) (positive : 0 < d) where
  saturate_over :
      (z : ℤ)
      → max_long < (m + 1) * d
      → ltb_ℤ (pos m) z ≡ true
      → saturate (times z d) ≡ pos max_long
  saturate_over (pos n) h k = ground (arith, mul_mono (m + 1) n d)
  saturate_over (negsuc n) h k = ground arith

  saturate_under :
      (z : ℤ)
      → max_long < (m + 1) * d
      → ltb_ℤ z (negative m) ≡ true
      → saturate (times z d) ≡ negative max_long
  saturate_under (pos n) h k = ground arith
  saturate_under (negsuc n) h k = ground (arith, mul_mono (m + 1) (suc n) d)

  saturate_within :
      (z : ℤ)
      → m * d ≤ max_long
      → ltb_ℤ (pos m) z ≡ false
      → ltb_ℤ z (negative m) ≡ false
      → saturate (times z d) ≡ times z d
  saturate_within (pos n) h k l = ground (arith, mul_mono n m d)
  saturate_within (negsuc n) h k l = ground (arith, mul_mono (suc n) m d)

-- A product that fits is exact.
multiply-value :
    (a b : Long) (m : ℕ)
    → IsLong a
    → IsLong b
    → 0 < pattern_of b
    → m * pattern_of b ≤ max_long
    → ltb_ℤ (pos m) (value a) ≡ false
    → ltb_ℤ (value a) (negative m) ≡ false
    → value (multiply a b) ≡ times (value a) (pattern_of b)
multiply-value a b m p q h k over under =
    let x = pattern_of a in
    let d = pattern_of b in
    elim (Bool-cases (ltb a.hi half_word)) [
      | inl e ↦ ground (arith, mul_mono x m d, multiply-pattern a b p q)
      | inr e ↦ ground (
        arith,
        mul_mono (18446744073709551616 - x) m d,
        mul_pos (18446744073709551616 - x) d,
        sum_times (18446744073709551616 - x) x 18446744073709551616 d,
        multiply-pattern a b p q,
      )
    ]

-- The two tests of `scale` compare the integers.
module _ (a most : Long) (p : IsLong a) (q : IsLong most) (small : pattern_of most ≤ max_long) where
  over_test : less_than most a ≡ ltb_ℤ (pos (pattern_of most)) (value a)
  over_test =
      let e : value most ≡ pos (pattern_of most) = ground arith in
      less_than-value most a q p ∙ ap (λ (z : ℤ). ltb_ℤ z (value a)) e

  under_test : less_than a (negate most) ≡ ltb_ℤ (value a) (negative (pattern_of most))
  under_test =
      let n = negate-value most q small in
      less_than-value a (negate most) p n.1 ∙ ap (λ (z : ℤ). ltb_ℤ (value a) z) n.0

scale-saturate :
    (a b most : Long)
    → IsLong a
    → IsFactor b most
    → value (scale a b most) ≡ saturate (times (value a) (pattern_of b))
unfolding scale
scale-saturate a b most p f =
    let d = pattern_of b in
    let m = pattern_of most in
    let small = most-le m d f.positive f.enough in
    let o = over_test a most p f.IsLong_most small in
    let u = under_test a most p f.IsLong_most small in
    elim (Bool-cases (less_than most a)) [
      | inl e ↦ rw e (sym (saturate_over m d f.positive (value a) f.least (sym o ∙ e)))
      | inr e ↦ elim (Bool-cases (less_than a (negate most))) [
        | inl k ↦ rw (e, k) (sym (saturate_under m d f.positive (value a) f.least (sym u ∙ k)))
        | inr k ↦
            rw (e, k)
              (multiply-value a b m p f.IsLong_b f.positive f.enough (sym o ∙ e) (sym u ∙ k)
                ∙ sym (saturate_within m d f.positive (value a) f.enough (sym o ∙ e) (sym u ∙ k)))
      ]
    ]

scale-IsLong : (a b most : Long) → IsLong a → IsLong b → IsLong (scale a b most)
unfolding scale
scale-IsLong a b most p q = ground (arith, (multiply-pattern a b p q).1)

pub scaled :
    (a b most : Long)
    → IsLong a
    → IsFactor b most
    → (value (scale a b most) ≡ saturate (times (value a) (pattern_of b))) × IsLong (scale a b most)
scaled a b most p f = (scale-saturate a b most p f, scale-IsLong a b most p f.IsLong_b)

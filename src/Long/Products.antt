-- ===== src/Long/Products.antt =====
-- The product of two longs by halves of words.
use file_tree_views.Base.{ℕ, ◌+◌, ◌*◌, ◌/◌, ◌%◌, ◌<◌, ◌≤◌, ◌≡◌, ap, arith}
use file_tree_views.Long.{Long, word, multiply}
use file_tree_views.Long.Values.{IsLong, pattern_of}

half-mul : (a b : ℕ) → a < 65536 → b < 65536 → a * b ≤ 4294836225
half-mul a b p q = grind arith

-- The same digits, as the code adds them up.
sums :
    (n p q s e g t : ℕ)
    → n ≤ 4294836225
    → p ≤ 4294836225
    → q ≤ 4294836225
    → s ≤ 4294836225
    → let r = (n / 65536 + q) % word in
      ((((e % word + g % word) % word + s) % word + r / 65536) % word
            + (r % 65536 + p) % word / 65536)
          % word
          * word
        + (n + (p + q) % word * 65536 % word) % word
      ≡ (n + 65536 * (p + q) + word * (s + e + g) + 18446744073709551616 * t) % 18446744073709551616
sums n p q s e g t a b c d = omega arith

expand :
    (f h m k u v : ℕ)
    → (u * word + (f * 65536 + h)) * (v * word + (m * 65536 + k))
      ≡ h * k
        + 65536 * (f * k + h * m)
        + word * (f * m + (f * 65536 + h) * v + u * (m * 65536 + k))
        + 18446744073709551616 * (u * v)
expand f h m k u v = grind arith

-- The product of the patterns, by halves of the low words.
expand_words :
    (x y u v : ℕ)
    → (u * word + x) * (v * word + y)
      ≡ x % 65536 * (y % 65536)
        + 65536 * (x / 65536 * (y % 65536) + x % 65536 * (y / 65536))
        + word * (x / 65536 * (y / 65536) + x * v + u * y)
        + 18446744073709551616 * (u * v)
expand_words x y u v =
    let p : x ≡ x / 65536 * 65536 + x % 65536 = omega arith in
    let q : y ≡ y / 65536 * 65536 + y % 65536 = omega arith in
    grind (
      arith,
      expand (x / 65536) (x % 65536) (y / 65536) (y % 65536) u v,
      ap (λ (t : ℕ). t * v) p,
      ap (λ (t : ℕ). u * t) q,
    )

-- The words of the product are those of the product of the patterns.
pub multiply-pattern :
    (a b : Long)
    → IsLong a
    → IsLong b
    → (pattern_of (multiply a b) ≡ pattern_of a * pattern_of b % 18446744073709551616)
      × IsLong (multiply a b)
unfolding multiply
multiply-pattern a b p q =
    let x = a.lo in
    let y = b.lo in
    let n = half-mul (x % 65536) (y % 65536) (omega arith) (omega arith) in
    let f = half-mul (x / 65536) (y % 65536) (omega arith) (omega arith) in
    let g = half-mul (x % 65536) (y / 65536) (omega arith) (omega arith) in
    let s = half-mul (x / 65536) (y / 65536) (omega arith) (omega arith) in
    omega (
      arith,
      n,
      f,
      g,
      s,
      sums (x % 65536 * (y % 65536)) (x / 65536 * (y % 65536)) (x % 65536 * (y / 65536))
          (x / 65536 * (y / 65536)) (x * b.hi) (a.hi * y) (a.hi * b.hi) n f g s,
      expand_words x y a.hi b.hi,
    )

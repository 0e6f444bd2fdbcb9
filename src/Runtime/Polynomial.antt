-- ===== src/Runtime/Polynomial.antt =====
-- The hash code of a text, beside Java's polynomial.
use mathlib.Core.List.{reverse-cons, append_assoc, append-nil}
use file_tree_views.Base.{
  ℕ, ◌+◌, ◌*◌, ◌/◌, ◌%◌, ◌<◌, ◌≡◌, refl, arith, ap, ◌∙◌, sym, [], ◌∷◌, ◌++◌, Str, reverse,
}
use file_tree_views.Long.{word}
use file_tree_views.Runtime.{hash_loop, string_hash}

-- `s[0] * 31 ^ (n - 1) + … + s[n - 1]`, by Horner's rule.
abbrev pub horner : ℕ → Str → ℕ
horner h [] = h
horner h (c ∷ s) = horner (31 * h + c) s

-- The same of the reversed text.
abbrev backwards : Str → ℕ
backwards [] = 0
backwards (c ∷ r) = 31 * backwards r + c

split_times : (q r b : ℕ) → (q * word + r) * b ≡ q * b * word + r * b
split_times q r b = grind arith

-- A factor may be reduced.
mul_mod : (a b : ℕ) → a % word * b % word ≡ a * b % word
mul_mod a b =
    let e : a ≡ a / word * word + a % word = omega arith in
    omega (arith, ap (λ (t : ℕ). t * b) e ∙ split_times (a / word) (a % word) b)

rearranged : (a c d p : ℕ) → a + d * (31 * p + c) ≡ a + c * d + 31 * d * p
rearranged a c d p = grind arith

hash_loop-backwards :
    (r : Str) (a d : ℕ) → a < word → hash_loop r a d ≡ (a + d * backwards r) % word
unfolding hash_loop
hash_loop-backwards [] a d h = omega arith
hash_loop-backwards (c ∷ r) a d h = omega (
  arith,
  hash_loop-backwards r ((a + c * d % word) % word) (31 * d % word) (omega arith),
  mul_mod (31 * d) (backwards r),
  rearranged a c d (backwards r),
)

horner-backwards : (s r : Str) → horner (backwards r) s ≡ backwards (reverse s ++ r)
horner-backwards [] r = refl
horner-backwards (c ∷ s) r =
    horner-backwards s (c ∷ r)
    ∙ ap backwards (
        sym (append_assoc (reverse s) (c ∷ []) r)
        ∙ ap (λ (l : Str). l ++ r) (sym (reverse-cons c s)))

-- The hash code of a text is the polynomial of its code units, modulo 2 ^ 32.
pub string_hash-horner : (s : Str) → string_hash s ≡ horner 0 s % word
unfolding string_hash
string_hash-horner s =
    hash_loop-backwards (reverse s) 0 1 (omega arith)
    ∙ ap (λ (l : Str). (0 + 1 * backwards l) % word) (sym (append-nil (reverse s)))
    ∙ omega (arith, horner-backwards s [])

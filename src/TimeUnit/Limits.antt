-- ===== src/TimeUnit/Limits.antt =====
-- Which durations can be made, and their nanoseconds.
use file_tree_views.Base.{
  ℕ, suc, ◌+◌, ◌*◌, ◌/◌, ◌%◌, ◌↔◌, ◌<◌, ◌≤◌, ◌≡◌, sym, ap, ◌∙◌, arith, Bool, true, false, ◌&&◌,
  none, some, Bool-cases, inl, inr,
}
use file_tree_views.Base.Int.{ℤ, pos, negsuc, leb_ℤ}
use file_tree_views.Long.{Long, long, negative, negate, word}
use file_tree_views.Long.Values.{IsLong, value, pattern_of, max_long, negate-value}
use file_tree_views.TimeUnit.{
  TimeUnit, nanoseconds, microseconds, milliseconds, seconds, minutes, hours, days,
}
use file_tree_views.TimeUnit.Scaled.{
  IsFactor, most-le, mul_mono, times, size, saturate, in_unit, quot,
}
use file_tree_views.TimeUnit.Exact.{to_unit-nanoseconds}
use file_tree_views.TimeUnit.Durations.{
  FiniteDuration, less_equal, bounded, limit, make_duration, nanos_of,
}

-- An integer from `-Long.MAX_VALUE` to `Long.MAX_VALUE`.
abbrev pub is_within : ℤ → Bool
is_within z = leb_ℤ (negative max_long) z && leb_ℤ z (pos max_long)

less_equal-value : (l r : Long) → IsLong l → IsLong r → less_equal l r ≡ leb_ℤ (value l) (value r)
unfolding less_equal
less_equal-value l r p q = ground arith

within_limit :
    (m d : ℕ)
    → 0 < d
    → m * d ≤ max_long
    → max_long < (m + 1) * d
    → (z : ℤ) → (leb_ℤ (negative m) z && leb_ℤ z (pos m)) ≡ is_within (times z d)
within_limit m d h e l (pos n) = ground (arith, mul_mono n m d, mul_mono (m + 1) n d)
within_limit m d h e l (negsuc n) = ground (arith, mul_mono (suc n) m d, mul_mono (m + 1) (suc n) d)

bounded-within :
    (l b most : Long)
    → IsLong l
    → IsFactor b most
    → bounded l most ≡ is_within (times (value l) (pattern_of b))
unfolding bounded
bounded-within l b most p f =
    let d = pattern_of b in
    let m = pattern_of most in
    let small = most-le m d f.positive f.enough in
    let n = negate-value most f.IsLong_most small in
    let e : value most ≡ pos m = ground arith in
    ap (λ (x : Bool). x && less_equal l most)
      (less_equal-value (negate most) l n.1 p ∙ ap (λ (z : ℤ). leb_ℤ z (value l)) n.0)
    ∙ ap (λ (x : Bool). leb_ℤ (negative m) (value l) && x)
        (less_equal-value l most p f.IsLong_most ∙ ap (λ (z : ℤ). leb_ℤ (value l) z) e)
    ∙ within_limit m d f.positive f.enough f.least (value l)

-- A unit in nanoseconds, as a long.
abbrev factor : TimeUnit → Long
factor u = long (size u % word) (size u / word)

limit-IsFactor : (u : TimeUnit) → IsFactor (factor u) (limit u)
unfolding limit
limit-IsFactor nanoseconds = omega arith
limit-IsFactor microseconds = omega arith
limit-IsFactor milliseconds = omega arith
limit-IsFactor seconds = omega arith
limit-IsFactor minutes = omega arith
limit-IsFactor hours = omega arith
limit-IsFactor days = omega arith

factor-pattern : (u : TimeUnit) → pattern_of (factor u) ≡ size u
factor-pattern u = omega arith

bounded-limit :
    (l : Long) (u : TimeUnit)
    → IsLong l
    → bounded l (limit u) ≡ is_within (times (value l) (size u))
bounded-limit l u p =
    bounded-within l (factor u) (limit u) p (limit-IsFactor u)
    ∙ ap (λ (d : ℕ). is_within (times (value l) d)) (factor-pattern u)

saturate_within : (z : ℤ) → is_within z ≡ true → saturate z ≡ z
saturate_within z h = ground arith

times_one : (z : ℤ) → times z 1 ≡ z
times_one (pos n) = ground arith
times_one (negsuc n) = ground arith

quot_one : (z : ℤ) → quot z 1 ≡ z
quot_one (pos n) = ground arith
quot_one (negsuc n) = ground arith

-- In nanoseconds nothing is lost.
in_unit-nanoseconds :
    (u : TimeUnit) (z : ℤ)
    → is_within (times z (size u)) ≡ true
    → in_unit u nanoseconds z ≡ times z (size u)
in_unit-nanoseconds nanoseconds z h = quot_one z ∙ sym (times_one z)
in_unit-nanoseconds microseconds z h = saturate_within (times z 1000) h
in_unit-nanoseconds milliseconds z h = saturate_within (times z 1000000) h
in_unit-nanoseconds seconds z h = saturate_within (times z 1000000000) h
in_unit-nanoseconds minutes z h = saturate_within (times z 60000000000) h
in_unit-nanoseconds hours z h = saturate_within (times z 3600000000000) h
in_unit-nanoseconds days z h = saturate_within (times z 86400000000000) h

-- A duration is refused exactly when the integer of its nanoseconds is beyond `Long.MAX_VALUE` or its
-- negative; one that is made has that integer of nanoseconds exactly, whatever the division of longs
-- is.
pub make_duration-exact :
    (divide : Long → Long → Long) (l : Long) (u : TimeUnit)
    → IsLong l
    → ((make_duration l u ≡ none) ↔ (is_within (times (value l) (size u)) ≡ false))
      × ((d : FiniteDuration)
          → make_duration l u ≡ some d
          → value (nanos_of divide d) ≡ times (value l) (size u))
unfolding make_duration nanos_of
make_duration-exact divide l u p =
    let e = bounded-limit l u p in
    elim (Bool-cases (bounded l (limit u))) [
      | inl b ↦ (
        ground (arith, b, e),
        λ d m.
            ground (
              arith,
              m,
              b,
              e,
              (to_unit-nanoseconds divide u l p).0,
              in_unit-nanoseconds u (value l),
            ),
      )
      | inr b ↦ (ground (arith, b, e), λ d m. ground (arith, m, b))
    ]

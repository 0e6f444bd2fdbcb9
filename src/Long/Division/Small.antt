-- ===== src/Long/Division/Small.antt =====
-- Division of numbers of at most 53 bits, which is what times in milliseconds are.
use file_tree_views.Base.{
  ℕ, ◌+◌, ◌-◌, ◌*◌, ◌/◌, ◌<◌, ◌≡◌, ◌≢◌, ◌↔◌, refl, sym, ◌∙◌, ap, arith, Option, none, some, Bool,
  true, false, ltb, nat_eq, ◌&&◌, if◌then◌else◌, Bool-cases, inl, inr,
}
use file_tree_views.Base.Int.{ℤ, pos}
use file_tree_views.Long.{Long, long, word, half_word, negate, of_int}
use file_tree_views.Long.Values.{IsLong, value, pattern_of}
use file_tree_views.Long.Division.{
  divide, divide_ints, unsigned_quotient, int_value, int_quotient, is_int, is_negative, absolute,
  same, of_double,
}
use file_tree_views.Long.Division.Signs.{
  IsSmall, div-le, div-lt, signed, int-value, divide_ints-value, value_quotient,
}

abbrev is_least : Long → Long → Bool
is_least a b = (nat_eq a.lo half_word && nat_eq b.lo half_word) && nat_eq b.hi 0

shorter-lt :
    (a b : Long)
    → IsLong a
    → IsLong b
    → is_int a ≡ true
    → is_int b ≡ false
    → is_least a b ≡ false
    → pattern_of (absolute a) < pattern_of (absolute b)
unfolding negate
shorter-lt a b p q e f k = ground arith

signed_zero : (s : Bool) → signed s 0 ≡ pos 0
signed_zero false = refl
signed_zero true = refl

-- An integer of 32 bits by a long that is none.
shorter :
    (a b : Long)
    → IsLong a
    → IsLong b
    → is_int a ≡ true
    → is_int b ≡ false
    → value (if is_least a b then long (word - 1) (word - 1) else long 0 0)
      ≡ int_quotient (value a) (value b)
shorter a b p q e f = elim (Bool-cases (is_least a b)) [
  | inl k ↦ rw k (ground (arith, k, e))
  | inr k ↦
      let x = pattern_of (absolute a) in
      let y = pattern_of (absolute b) in
      let t = if same (is_negative a) (is_negative b) then false else true in
      rw k (
        sym (
          value_quotient a b p q (ground arith)
          ∙ ap (signed t) (div-lt x y (shorter-lt a b p q e f k))
          ∙ signed_zero t))
]

-- The path by doubles.
by_doubles :
    (x y : Long)
    → x.hi < 2097152
    → y.hi < 2097152
    → unsigned_quotient x y ≡ of_double (pattern_of x / pattern_of y)
unfolding unsigned_quotient
by_doubles x y s t =
    let e : ltb x.hi 2097152 ≡ true = ground arith in
    let f : ltb y.hi 2097152 ≡ true = ground arith in
    let m : word * x.hi + x.lo ≡ pattern_of x = omega arith in
    let n : word * y.hi + y.lo ≡ pattern_of y = omega arith in
    rw (e, f)
      (ap (λ (k : ℕ). of_double (k / (word * y.hi + y.lo))) m
        ∙ ap (λ (k : ℕ). of_double (pattern_of x / k)) n)

of_double-signed :
    (n : ℕ) (b : Bool)
    → n < 9007199254740992
    → value (if b then of_double n else negate (of_double n)) ≡ signed (if b then false else true) n
unfolding negate
of_double-signed n true h = ground arith
of_double-signed n false h = ground arith

small-hi : (l : Long) → IsLong l → IsSmall l → (absolute l).hi < 2097152
unfolding negate
small-hi l p s = ground arith

absolute-pos : (l : Long) → IsLong l → 0 < pattern_of l → 0 < pattern_of (absolute l)
unfolding negate
absolute-pos l p h = ground arith

div-small : (n d : ℕ) → 0 < d → n < 9007199254740992 → n / d < 9007199254740992
div-small n d h k = omega (arith, div-le n d h)

-- The quotient of the patterns with its sign.
far :
    (a b : Long)
    → IsLong a
    → IsLong b
    → IsSmall a
    → IsSmall b
    → 0 < pattern_of b
    → value (
        if same (is_negative a) (is_negative b)
        then unsigned_quotient (absolute a) (absolute b)
        else negate (unsigned_quotient (absolute a) (absolute b)))
      ≡ int_quotient (value a) (value b)
far a b p q s t h =
    let x = pattern_of (absolute a) in
    let y = pattern_of (absolute b) in
    let c = same (is_negative a) (is_negative b) in
    ap (λ (r : Long). value (if c then r else negate r))
      (by_doubles (absolute a) (absolute b) (small-hi a p s) (small-hi b q t))
    ∙ of_double-signed (x / y) c (div-small x y (absolute-pos b q h) s)
    ∙ sym (value_quotient a b p q h)

-- The quotient by a divisor that is not zero.
abbrev pub quotient_of : Long → Long → Long
quotient_of a b =
    if is_int a
    then (if is_int b
        then divide_ints a.lo b.lo
        else if is_least a b
        then long (word - 1) (word - 1)
        else long 0 0)
    else (if same (is_negative a) (is_negative b)
        then unsigned_quotient (absolute a) (absolute b)
        else negate (unsigned_quotient (absolute a) (absolute b)))

pub quotient_of-value :
    (a b : Long)
    → IsLong a
    → IsLong b
    → IsSmall a
    → IsSmall b
    → 0 < pattern_of b
    → value (quotient_of a b) ≡ int_quotient (value a) (value b)
quotient_of-value a b p q s t h = elim (Bool-cases (is_int a)) [
  | inr e ↦ rw e (far a b p q s t h)
  | inl e ↦ elim (Bool-cases (is_int b)) [
    | inr f ↦ rw (e, f) (shorter a b p q e f)
    | inl f ↦
        rw (e, f)
          (divide_ints-value a.lo b.lo p.0 q.0 (ground (arith, f))
            ∙ ap (λ (z : ℤ). int_quotient z (int_value b.lo)) (sym (int-value a p e))
            ∙ ap (λ (z : ℤ). int_quotient (value a) z) (sym (int-value b q f)))
  ]
]

pub quotient_of-IsLong :
    (a b : Long)
    → IsLong a
    → IsLong b
    → IsSmall a
    → IsSmall b
    → 0 < pattern_of b
    → IsLong (quotient_of a b)
unfolding of_int negate
quotient_of-IsLong a b p q s t h = elim (Bool-cases (is_int a)) [
  | inr e ↦
      rw (e, by_doubles (absolute a) (absolute b) (small-hi a p s) (small-hi b q t)) (ground arith)
  | inl e ↦ rw e (ground arith)
]

some-injective : {A : Type 0} (x y : A) → some x ≡ some y → x ≡ y
some-injective x y e = cc

abbrev pub is_zero : Long → Bool
is_zero l = nat_eq l.lo 0 && nat_eq l.hi 0

divide-zero : (a b : Long) → is_zero b ≡ true → divide a b ≡ none
unfolding divide
divide-zero a b z = rw z refl

pub divide-nonzero : (a b : Long) → is_zero b ≡ false → divide a b ≡ some (quotient_of a b)
unfolding divide
divide-nonzero a b z = elim (Bool-cases (is_int a)) [
  | inl e ↦ rw (z, e) refl
  | inr e ↦ rw (z, e) refl
]

value-zero : (l : Long) → IsLong l → is_zero l ≡ true → value l ≡ pos 0
value-zero l p z = ground arith

value-nonzero : (l : Long) → IsLong l → is_zero l ≡ false → value l ≢ pos 0
value-nonzero l p z = ground arith

pattern-nonzero : (l : Long) → is_zero l ≡ false → 0 < pattern_of l
pattern-nonzero l z = ground arith

none-ne-some : {A : Type 0} (o : Option A) (x : A) → o ≡ none → o ≡ some x → ⊥
none-ne-some o x e f = cc

-- Longs of at most 53 bits divide as integers do, cut off towards zero; only a divisor of zero is
-- refused.
pub divide-int_quotient :
    (a b : Long)
    → IsLong a
    → IsLong b
    → IsSmall a
    → IsSmall b
    → ((divide a b ≡ none) ↔ (value b ≡ pos 0))
      × ((r : Long) → divide a b ≡ some r → value r ≡ int_quotient (value a) (value b))
divide-int_quotient a b p q s t = elim (Bool-cases (is_zero b)) [
  | inl z ↦
      let e = divide-zero a b z in
      ((λ m. value-zero b q z, λ v. e), λ r m. absurd (none-ne-some (divide a b) r e m))
  | inr z ↦
      let e = divide-nonzero a b z in
      (
        (
          λ m. absurd (none-ne-some (divide a b) (quotient_of a b) m e),
          λ v. absurd (value-nonzero b q z v),
        ),
        λ r m.
            ap value (some-injective r (quotient_of a b) (sym m ∙ e))
            ∙ quotient_of-value a b p q s t (pattern-nonzero b z),
      )
]

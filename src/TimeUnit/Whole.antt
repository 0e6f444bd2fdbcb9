-- ===== src/TimeUnit/Whole.antt =====
-- The conversions with the division that the bundle has, of times of at most 53 bits.
use file_tree_views.Base.{ℕ, ◌<◌, ◌≡◌, refl, sym, ◌∙◌, ap, subst, arith, Option, none, some, false}
use file_tree_views.Base.Int.{ℤ, pos, negsuc}
use file_tree_views.Long.{Long, long}
use file_tree_views.Long.Values.{IsLong, value, pattern_of}
use file_tree_views.Long.Division.{divide, int_quotient}
use file_tree_views.Long.Division.Signs.{IsSmall}
use file_tree_views.Long.Division.Small.{
  is_zero, quotient_of, divide-nonzero, quotient_of-value, quotient_of-IsLong,
}
use file_tree_views.TimeUnit.{TimeUnit, to_unit}
use file_tree_views.TimeUnit.Scaled.{quot, in_unit}
use file_tree_views.TimeUnit.Exact.{DividesAt, to_unit-in_unit}

-- The division by a constant, which is not zero.
abbrev pub or_zero : Option Long → Long
or_zero none = long 0 0
or_zero (some r) = r

unfoldable pub long_quotient : Long → Long → Long
unfolding divide
long_quotient a b = or_zero (divide a b)

positive-IsSmall :
    (b : Long)
    → IsLong b
    → 0 < pattern_of b
    → pattern_of b < 9007199254740992
    → IsSmall b × (is_zero b ≡ false) × (value b ≡ pos (pattern_of b))
positive-IsSmall b q h k = ground arith

int_quotient-quot : (z : ℤ) (d : ℕ) → int_quotient z (pos d) ≡ quot z d
int_quotient-quot (pos n) d = refl
int_quotient-quot (negsuc n) d = refl

long_quotient-quotient_of : (a b : Long) → is_zero b ≡ false → long_quotient a b ≡ quotient_of a b
unfolding long_quotient
long_quotient-quotient_of a b z = ap or_zero (divide-nonzero a b z)

pub long_quotient-DividesAt : (a : Long) → IsLong a → IsSmall a → DividesAt long_quotient a
long_quotient-DividesAt a p s b q h k =
    let (t, z, v) = positive-IsSmall b q h k in
    let e : long_quotient a b ≡ quotient_of a b = long_quotient-quotient_of a b z in
    (
      ap value e
          ∙ quotient_of-value a b p q s t h
          ∙ ap (λ (y : ℤ). int_quotient (value a) y) v
          ∙ int_quotient-quot (value a) (pattern_of b),
      subst IsLong (sym e) (quotient_of-IsLong a b p q s t h),
    )

-- A time of at most 53 bits in any unit, as a number of any other: the product or the quotient towards
-- zero of its integer by the ratio of the units; a product beyond `Long.MAX_VALUE` or its negative
-- becomes that bound.
pub to_unit-long_quotient :
    (u v : TimeUnit) (l : Long)
    → IsLong l
    → IsSmall l
    → value (to_unit long_quotient u v l) ≡ in_unit u v (value l)
to_unit-long_quotient u v l p s =
    (to_unit-in_unit long_quotient u v l (long_quotient-DividesAt l p s) p).0

-- ===== src/Tests/Division.antt =====
-- Tests of the division of longs, path by path.
use file_tree_views.Base.{◌≡◌, refl, some}
use file_tree_views.Long.{long}
use file_tree_views.Long.Division.{divide, remainder}

-- The paths of a division: the loop, the powers of two, and the least integers.
quotient_0 : divide (long 3755744309 1073741826) (long 1000003 0) ≡ some (long 3172287148 1073)
unfolding divide
quotient_0 = refl

remainder_0 : remainder (long 3755744309 1073741826) (long 1000003 0) ≡ some (long 479537 0)
unfolding remainder
remainder_0 = refl

quotient_1 : divide (long 999 536870912) (long 7 2) ≡ some (long 268435455 0)
unfolding divide
quotient_1 = refl

remainder_1 : remainder (long 999 536870912) (long 7 2) ≡ some (long 2415920110 1)
unfolding remainder
remainder_1 = refl

quotient_2 : divide (long 4294967291 3221225471) (long 1000 0) ≡ some (long 755914245 4293893554)
unfolding divide
quotient_2 = refl

remainder_2 :
    remainder (long 4294967291 3221225471) (long 1000 0) ≡ some (long 4294966387 4294967295)
unfolding remainder
remainder_2 = refl

quotient_3 : divide (long 77 268435456) (long 4096 0) ≡ some (long 0 65536)
unfolding divide
quotient_3 = refl

remainder_3 : remainder (long 77 268435456) (long 4096 0) ≡ some (long 77 0)
unfolding remainder
remainder_3 = refl

quotient_4 : divide (long 0 2147483648) (long 4294967295 4294967295) ≡ some (long 0 2147483648)
unfolding divide
quotient_4 = refl

remainder_4 : remainder (long 0 2147483648) (long 4294967295 4294967295) ≡ some (long 0 0)
unfolding remainder
remainder_4 = refl

quotient_5 : divide (long 5 1073742080) (long 0 4096) ≡ some (long 262144 0)
unfolding divide
quotient_5 = refl

remainder_5 : remainder (long 5 1073742080) (long 0 4096) ≡ some (long 5 256)
unfolding remainder
remainder_5 = refl

quotient_6 : divide (long 4294967295 2147483647) (long 1000000 0) ≡ some (long 2077252342 2147)
unfolding divide
quotient_6 = refl

remainder_6 : remainder (long 4294967295 2147483647) (long 1000000 0) ≡ some (long 775807 0)
unfolding remainder
remainder_6 = refl

quotient_7 : divide (long 0 2147483648) (long 2147483648 0) ≡ some (long 0 4294967295)
unfolding divide
quotient_7 = refl

remainder_7 : remainder (long 0 2147483648) (long 2147483648 0) ≡ some (long 0 0)
unfolding remainder
remainder_7 = refl

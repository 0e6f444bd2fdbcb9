-- ===== src/TimeUnit/Exact.antt =====
-- What a conversion gives, as an integer.
use file_tree_views.Base.{◌<◌, ◌≡◌, arith}
use file_tree_views.Base.Int.{ℤ, pos, negsuc}
use file_tree_views.Long.{Long, long, minus}
use file_tree_views.Long.Values.{IsLong, value, pattern_of}
use file_tree_views.TimeUnit.{
  TimeUnit, nanoseconds, microseconds, milliseconds, seconds, minutes, hours, days, to_unit,
}
use file_tree_views.TimeUnit.Scaled.{quot, in_unit, scaled}

quot_one : (z : ℤ) → z ≡ quot z 1
quot_one (pos n) = ground arith
quot_one (negsuc n) = ground arith

-- `divide` is the division of `a` by longs that are positive and of at most 53 bits.
abbrev pub DividesAt : (Long → Long → Long) → Long → Type 0
DividesAt divide a =
    (b : Long)
    → IsLong b
    → 0 < pattern_of b
    → pattern_of b < 9007199254740992
    → (value (divide a b) ≡ quot (value a) (pattern_of b)) × IsLong (divide a b)

-- Let the division of longs be the one towards zero at `l`. It converts from any unit to any other as
-- the product or the quotient towards zero of its integer by the ratio of the units; a product beyond
-- `Long.MAX_VALUE` or its negative becomes that bound.
pub to_unit-in_unit :
    (divide : Long → Long → Long) (u v : TimeUnit) (l : Long)
    → DividesAt divide l
    → IsLong l
    → (value (to_unit divide u v l) ≡ in_unit u v (value l)) × IsLong (to_unit divide u v l)
unfolding to_unit
to_unit-in_unit divide nanoseconds nanoseconds l h p = (quot_one (value l), p)
to_unit-in_unit divide nanoseconds microseconds l h p =
    h (long 1000 0) (omega arith) (omega arith) (omega arith)
to_unit-in_unit divide nanoseconds milliseconds l h p =
    h (long 1000000 0) (omega arith) (omega arith) (omega arith)
to_unit-in_unit divide nanoseconds seconds l h p =
    h (long 1000000000 0) (omega arith) (omega arith) (omega arith)
to_unit-in_unit divide nanoseconds minutes l h p =
    h (long (minus 129542144) 13) (omega arith) (omega arith) (omega arith)
to_unit-in_unit divide nanoseconds hours l h p =
    h (long 817405952 838) (omega arith) (omega arith) (omega arith)
to_unit-in_unit divide nanoseconds days l h p =
    h (long (minus 1857093632) 20116) (omega arith) (omega arith) (omega arith)
to_unit-in_unit divide microseconds nanoseconds l h p =
    scaled l (long 1000 0) (long (minus 1511828489) 2147483) p (omega arith)
to_unit-in_unit divide microseconds microseconds l h p = (quot_one (value l), p)
to_unit-in_unit divide microseconds milliseconds l h p =
    h (long 1000 0) (omega arith) (omega arith) (omega arith)
to_unit-in_unit divide microseconds seconds l h p =
    h (long 1000000 0) (omega arith) (omega arith) (omega arith)
to_unit-in_unit divide microseconds minutes l h p =
    h (long 60000000 0) (omega arith) (omega arith) (omega arith)
to_unit-in_unit divide microseconds hours l h p =
    h (long (minus 694967296) 0) (omega arith) (omega arith) (omega arith)
to_unit-in_unit divide microseconds days l h p =
    h (long 500654080 20) (omega arith) (omega arith) (omega arith)
to_unit-in_unit divide milliseconds nanoseconds l h p =
    scaled l (long 1000000 0) (long 2077252342 2147) p (omega arith)
to_unit-in_unit divide milliseconds microseconds l h p =
    scaled l (long 1000 0) (long (minus 1511828489) 2147483) p (omega arith)
to_unit-in_unit divide milliseconds milliseconds l h p = (quot_one (value l), p)
to_unit-in_unit divide milliseconds seconds l h p =
    h (long 1000 0) (omega arith) (omega arith) (omega arith)
to_unit-in_unit divide milliseconds minutes l h p =
    h (long 60000 0) (omega arith) (omega arith) (omega arith)
to_unit-in_unit divide milliseconds hours l h p =
    h (long 3600000 0) (omega arith) (omega arith) (omega arith)
to_unit-in_unit divide milliseconds days l h p =
    h (long 86400000 0) (omega arith) (omega arith) (omega arith)
to_unit-in_unit divide seconds nanoseconds l h p =
    scaled l (long 1000000000 0) (long 633437444 2) p (omega arith)
to_unit-in_unit divide seconds microseconds l h p =
    scaled l (long 1000000 0) (long 2077252342 2147) p (omega arith)
to_unit-in_unit divide seconds milliseconds l h p =
    scaled l (long 1000 0) (long (minus 1511828489) 2147483) p (omega arith)
to_unit-in_unit divide seconds seconds l h p = (quot_one (value l), p)
to_unit-in_unit divide seconds minutes l h p =
    h (long 60 0) (omega arith) (omega arith) (omega arith)
to_unit-in_unit divide seconds hours l h p =
    h (long 3600 0) (omega arith) (omega arith) (omega arith)
to_unit-in_unit divide seconds days l h p =
    h (long 86400 0) (omega arith) (omega arith) (omega arith)
to_unit-in_unit divide minutes nanoseconds l h p =
    scaled l (long (minus 129542144) 13) (long 153722867 0) p (omega arith)
to_unit-in_unit divide minutes microseconds l h p =
    scaled l (long 60000000 0) (long (minus 895955376) 35) p (omega arith)
to_unit-in_unit divide minutes milliseconds l h p =
    scaled l (long 60000 0) (long 1692789776 35791) p (omega arith)
to_unit-in_unit divide minutes seconds l h p =
    scaled l (long 60 0) (long 572662306 35791394) p (omega arith)
to_unit-in_unit divide minutes minutes l h p = (quot_one (value l), p)
to_unit-in_unit divide minutes hours l h p = h (long 60 0) (omega arith) (omega arith) (omega arith)
to_unit-in_unit divide minutes days l h p =
    h (long 1440 0) (omega arith) (omega arith) (omega arith)
to_unit-in_unit divide hours nanoseconds l h p =
    scaled l (long 817405952 838) (long 2562047 0) p (omega arith)
to_unit-in_unit divide hours microseconds l h p =
    scaled l (long (minus 694967296) 0) (long (minus 1732919508) 0) p (omega arith)
to_unit-in_unit divide hours milliseconds l h p =
    scaled l (long 3600000 0) (long (minus 2047687697) 596) p (omega arith)
to_unit-in_unit divide hours seconds l h p =
    scaled l (long 3600 0) (long 1011703407 596523) p (omega arith)
to_unit-in_unit divide hours minutes l h p =
    scaled l (long 60 0) (long 572662306 35791394) p (omega arith)
to_unit-in_unit divide hours hours l h p = (quot_one (value l), p)
to_unit-in_unit divide hours days l h p = h (long 24 0) (omega arith) (omega arith) (omega arith)
to_unit-in_unit divide days nanoseconds l h p =
    scaled l (long (minus 1857093632) 20116) (long 106751 0) p (omega arith)
to_unit-in_unit divide days microseconds l h p =
    scaled l (long 500654080 20) (long 106751991 0) p (omega arith)
to_unit-in_unit divide days milliseconds l h p =
    scaled l (long 86400000 0) (long (minus 622191233) 24) p (omega arith)
to_unit-in_unit divide days seconds l h p =
    scaled l (long 86400 0) (long 579025220 24855) p (omega arith)
to_unit-in_unit divide days minutes l h p =
    scaled l (long 1440 0) (long 381774870 1491308) p (omega arith)
to_unit-in_unit divide days hours l h p =
    scaled l (long 24 0) (long 1431655765 89478485) p (omega arith)
to_unit-in_unit divide days days l h p = (quot_one (value l), p)

-- In nanoseconds no division is needed.
pub to_unit-nanoseconds :
    (divide : Long → Long → Long) (u : TimeUnit) (l : Long)
    → IsLong l
    → (value (to_unit divide u nanoseconds l) ≡ in_unit u nanoseconds (value l))
      × IsLong (to_unit divide u nanoseconds l)
unfolding to_unit
to_unit-nanoseconds divide nanoseconds l p = (quot_one (value l), p)
to_unit-nanoseconds divide microseconds l p =
    scaled l (long 1000 0) (long (minus 1511828489) 2147483) p (omega arith)
to_unit-nanoseconds divide milliseconds l p =
    scaled l (long 1000000 0) (long 2077252342 2147) p (omega arith)
to_unit-nanoseconds divide seconds l p =
    scaled l (long 1000000000 0) (long 633437444 2) p (omega arith)
to_unit-nanoseconds divide minutes l p =
    scaled l (long (minus 129542144) 13) (long 153722867 0) p (omega arith)
to_unit-nanoseconds divide hours l p =
    scaled l (long 817405952 838) (long 2562047 0) p (omega arith)
to_unit-nanoseconds divide days l p =
    scaled l (long (minus 1857093632) 20116) (long 106751 0) p (omega arith)

-- ===== src/TimeUnit.antt =====
-- java.util.concurrent.TimeUnit, as it is linked into files/js/npm/files.js: the conversions of the
-- time-outs, of the latency of a stream and of the times of last changes. A long is two words, and
-- its division is a parameter.
pub mod Scaled
pub mod Exact
pub mod Whole
pub mod Durations
pub mod Limits
use file_tree_views.Base.{◌==◌, Bool, List, [], ◌∷◌, nat_eq, ltb, if◌then◌else◌}
use file_tree_views.Long.{Long, long, minus, negate, less_than, half_word, word, multiply, add32}

pub data TimeUnit : Type 0 where
  nanoseconds microseconds milliseconds seconds minutes hours days : TimeUnit

-- `values`
unfoldable pub values : List TimeUnit
values = nanoseconds ∷ microseconds ∷ milliseconds ∷ seconds ∷ minutes ∷ hours ∷ days ∷ []

-- `x(a, b, max)`: the product, or what stands for one that is too large. The least value is not
-- `Long.MIN_VALUE` but `-Long.MAX_VALUE`.
unfoldable pub scale : Long → Long → Long → Long
unfolding less_than negate multiply
scale a b most =
    if less_than most a
    then long (minus 1) 2147483647
    else if less_than a (negate most)
    then long 1 half_word
    else multiply a b

module _ (divide : Long → Long → Long) where
  -- `NANOSECONDS`: `toNanos` to `toDays`.
  unfoldable pub from_nanoseconds : TimeUnit → Long → Long
  unfolding scale
  from_nanoseconds nanoseconds l = l
  from_nanoseconds microseconds l = divide l (long 1000 0)
  from_nanoseconds milliseconds l = divide l (long 1000000 0)
  from_nanoseconds seconds l = divide l (long 1000000000 0)
  from_nanoseconds minutes l = divide l (long (minus 129542144) 13)
  from_nanoseconds hours l = divide l (long 817405952 838)
  from_nanoseconds days l = divide l (long (minus 1857093632) 20116)

  -- `MICROSECONDS`: `toNanos` to `toDays`.
  unfoldable pub from_microseconds : TimeUnit → Long → Long
  unfolding scale
  from_microseconds nanoseconds l = scale l (long 1000 0) (long (minus 1511828489) 2147483)
  from_microseconds microseconds l = l
  from_microseconds milliseconds l = divide l (long 1000 0)
  from_microseconds seconds l = divide l (long 1000000 0)
  from_microseconds minutes l = divide l (long 60000000 0)
  from_microseconds hours l = divide l (long (minus 694967296) 0)
  from_microseconds days l = divide l (long 500654080 20)

  -- `MILLISECONDS`: `toNanos` to `toDays`.
  unfoldable pub from_milliseconds : TimeUnit → Long → Long
  unfolding scale
  from_milliseconds nanoseconds l = scale l (long 1000000 0) (long 2077252342 2147)
  from_milliseconds microseconds l = scale l (long 1000 0) (long (minus 1511828489) 2147483)
  from_milliseconds milliseconds l = l
  from_milliseconds seconds l = divide l (long 1000 0)
  from_milliseconds minutes l = divide l (long 60000 0)
  from_milliseconds hours l = divide l (long 3600000 0)
  from_milliseconds days l = divide l (long 86400000 0)

  -- `SECONDS`: `toNanos` to `toDays`.
  unfoldable pub from_seconds : TimeUnit → Long → Long
  unfolding scale
  from_seconds nanoseconds l = scale l (long 1000000000 0) (long 633437444 2)
  from_seconds microseconds l = scale l (long 1000000 0) (long 2077252342 2147)
  from_seconds milliseconds l = scale l (long 1000 0) (long (minus 1511828489) 2147483)
  from_seconds seconds l = l
  from_seconds minutes l = divide l (long 60 0)
  from_seconds hours l = divide l (long 3600 0)
  from_seconds days l = divide l (long 86400 0)

  -- `MINUTES`: `toNanos` to `toDays`.
  unfoldable pub from_minutes : TimeUnit → Long → Long
  unfolding scale
  from_minutes nanoseconds l = scale l (long (minus 129542144) 13) (long 153722867 0)
  from_minutes microseconds l = scale l (long 60000000 0) (long (minus 895955376) 35)
  from_minutes milliseconds l = scale l (long 60000 0) (long 1692789776 35791)
  from_minutes seconds l = scale l (long 60 0) (long 572662306 35791394)
  from_minutes minutes l = l
  from_minutes hours l = divide l (long 60 0)
  from_minutes days l = divide l (long 1440 0)

  -- `HOURS`: `toNanos` to `toDays`.
  unfoldable pub from_hours : TimeUnit → Long → Long
  unfolding scale
  from_hours nanoseconds l = scale l (long 817405952 838) (long 2562047 0)
  from_hours microseconds l = scale l (long (minus 694967296) 0) (long (minus 1732919508) 0)
  from_hours milliseconds l = scale l (long 3600000 0) (long (minus 2047687697) 596)
  from_hours seconds l = scale l (long 3600 0) (long 1011703407 596523)
  from_hours minutes l = scale l (long 60 0) (long 572662306 35791394)
  from_hours hours l = l
  from_hours days l = divide l (long 24 0)

  -- `DAYS`: `toNanos` to `toDays`.
  unfoldable pub from_days : TimeUnit → Long → Long
  unfolding scale
  from_days nanoseconds l = scale l (long (minus 1857093632) 20116) (long 106751 0)
  from_days microseconds l = scale l (long 500654080 20) (long 106751991 0)
  from_days milliseconds l = scale l (long 86400000 0) (long (minus 622191233) 24)
  from_days seconds l = scale l (long 86400 0) (long 579025220 24855)
  from_days minutes l = scale l (long 1440 0) (long 381774870 1491308)
  from_days hours l = scale l (long 24 0) (long 1431655765 89478485)
  from_days days l = l

  -- The conversion of a unit to another, `u.toNanos(l)` and its like.
  unfoldable pub to_unit : TimeUnit → TimeUnit → Long → Long
  unfolding from_nanoseconds from_microseconds from_milliseconds from_seconds from_minutes
      from_hours from_days
  to_unit nanoseconds v l = from_nanoseconds v l
  to_unit microseconds v l = from_microseconds v l
  to_unit milliseconds v l = from_milliseconds v l
  to_unit seconds v l = from_seconds v l
  to_unit minutes v l = from_minutes v l
  to_unit hours v l = from_hours v l
  to_unit days v l = from_days v l

  -- `u.convert(l, v)`
  unfoldable pub convert : TimeUnit → Long → TimeUnit → Long
  unfolding to_unit
  convert u l v = to_unit v u l

-- ===== src/TimeUnit/Durations.antt =====
-- scala.concurrent.duration.FiniteDuration, as it is linked into files/js/npm/files.js: the intervals
-- and latencies of the watchers, and the delay of a timer of Node's.
use file_tree_views.Base.{ℕ, Bool, ◌&&◌, Option, none, some, nat_eq, leb, if◌then◌else◌}
use file_tree_views.Base.Int.{ℤ}
use file_tree_views.Long.{Long, long, minus, flip, slt, negate, of_int, compare_long, to_double}
use file_tree_views.TimeUnit.{
  TimeUnit, nanoseconds, microseconds, milliseconds, seconds, minutes, hours, days, to_unit,
}

pub record FiniteDuration : Type 0 where
  pub amount : Long
  pub duration_unit : TimeUnit

-- `l <= r`
unfoldable pub less_equal : Long → Long → Bool
less_equal l r =
    if nat_eq l.hi r.hi then leb (flip (flip l.lo)) (flip (flip r.lo)) else slt l.hi r.hi

-- `bounded(max)`
unfoldable pub bounded : Long → Long → Bool
unfolding less_equal negate
bounded l most = less_equal (negate most) l && less_equal l most

-- The greatest length in each unit.
unfoldable pub limit : TimeUnit → Long
limit nanoseconds = long (minus 1) 2147483647
limit microseconds = long (minus 1511828489) 2147483
limit milliseconds = long 2077252342 2147
limit seconds = long 633437444 2
limit minutes = long 153722867 0
limit hours = long 2562047 0
limit days = long 106751 0

-- `new FiniteDuration(length, unit)`; `none` is the `IllegalArgumentException`.
unfoldable pub make_duration : Long → TimeUnit → Option FiniteDuration
unfolding bounded limit
make_duration l u =
    if bounded l (limit u) then some (record { amount = l; duration_unit = u }) else none

-- `durationIn(unit)` of an `Int`
unfoldable pub duration_of_int : ℕ → TimeUnit → Option FiniteDuration
unfolding make_duration of_int
duration_of_int a u = make_duration (of_int a) u

module _ (divide : Long → Long → Long) where
  -- `toNanos`
  unfoldable pub nanos_of : FiniteDuration → Long
  unfolding to_unit
  nanos_of d = to_unit divide d.duration_unit nanoseconds d.amount

  -- `equals` and `compare`
  unfoldable pub same_duration : FiniteDuration → FiniteDuration → Bool
  unfolding nanos_of
  same_duration d e =
      nat_eq (nanos_of d).lo (nanos_of e).lo && nat_eq (nanos_of d).hi (nanos_of e).hi

  unfoldable pub compare_durations : FiniteDuration → FiniteDuration → ℤ
  unfolding nanos_of compare_long
  compare_durations d e = compare_long (nanos_of d) (nanos_of e)

  -- The milliseconds that `setTimeout` is given for a delay.
  unfoldable pub timeout_of : FiniteDuration → ℤ
  unfolding to_unit to_double
  timeout_of d = to_double (to_unit divide d.duration_unit milliseconds d.amount)

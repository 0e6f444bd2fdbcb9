-- ===== src/NodeFiles/Times.antt =====
-- The times of last changes as integers.
use file_tree_views.Base.{Str, ◌≡◌, subst}
use file_tree_views.Base.Int.{ℤ, pos}
use file_tree_views.Either.{Either, left, right}
use file_tree_views.Path.{JsPath}
use file_tree_views.Long.{Long}
use file_tree_views.Long.Values.{
  IsLong, value, clamp, Orders, compare_long-value, from_double-clamp,
}
use file_tree_views.TimeUnit.{milliseconds}
use file_tree_views.TimeUnit.Scaled.{in_unit}
use file_tree_views.TimeUnit.Exact.{to_unit-in_unit}
use file_tree_views.TimeUnit.Whole.{long_quotient, long_quotient-DividesAt}
use file_tree_views.Long.Division.Signs.{IsSmall}
use file_tree_views.NodeFiles.Attributes.{Stat, FileTime, to_millis, compare_times, last_modified}

-- The milliseconds of a time.
abbrev pub millis : FileTime → ℤ
millis t = in_unit t.time_unit milliseconds (value t.amount)

-- Two times of any units, each a number of at most 53 bits, compare as their milliseconds do.
pub compare_times-millis :
    (t u : FileTime)
    → IsLong t.amount
    → IsLong u.amount
    → IsSmall t.amount
    → IsSmall u.amount
    → Orders (compare_times long_quotient t u) (millis t) (millis u)
unfolding compare_times to_millis
compare_times-millis t u p q k m =
    let a =
      to_unit-in_unit long_quotient t.time_unit milliseconds t.amount
        (long_quotient-DividesAt t.amount p k) p in
    let b =
      to_unit-in_unit long_quotient u.time_unit milliseconds u.amount
        (long_quotient-DividesAt u.amount q m) q in
    let r = compare_times long_quotient t u in
    subst (λ x. Orders r x (millis u)) a.0
      (subst (λ y. Orders r (value (to_millis long_quotient t)) y) b.0
        (compare_long-value (to_millis long_quotient t) (to_millis long_quotient u) a.1 b.1))

-- The value of a path that can be examined is the time of its last change, brought into the range of
-- a long; the value of any other path is 0.
pub last_modified-clamp :
    (divide : Long → Long → Long) (stat_sync : Str → Either Str Stat) (p : JsPath)
    → ((s : Stat)
        → stat_sync p ≡ right s
        → value (last_modified divide stat_sync p) ≡ clamp s.mtime)
      × ((code : Str) → stat_sync p ≡ left code → value (last_modified divide stat_sync p) ≡ pos 0)
unfolding last_modified
last_modified-clamp divide stat_sync p = (λ s e. rw e (from_double-clamp s.mtime).0, λ code e. rw e)

-- ===== src/NodeFiles/Attributes.antt =====
-- nio-js/src/main/scala/java/nio/file/attribute, Files.readAttributes by NioWrappers.scala, and the
-- time of the last change that the polling watcher compares, as they stand in files/js/npm/files.js
-- (`NioWrappers$`, `BasicFileAttributesImpl`, `FileTime` and the converter of `PollingPathWatchers`).
use file_tree_views.Base.{Bool, true, false, List, [], ◌∷◌, Str, if◌then◌else◌}
use file_tree_views.Base.Int.{ℤ}
use file_tree_views.Either.{Either, left, right, IoException, other}
use file_tree_views.Path.{JsPath}
use file_tree_views.NodeFiles.{wrap}
use file_tree_views.Long.{Long, long, compare_long, from_double}
use file_tree_views.TimeUnit.{TimeUnit, milliseconds, to_unit}

-- What `fs.statSync` and `fs.lstatSync` answer, with `mtime.getTime()`, a whole number.
pub record Stat : Type 0 where
  pub stat_is_directory : Bool
  pub stat_is_file : Bool
  pub stat_is_symbolic_link : Bool
  pub mtime : ℤ

-- An error of `fs` has a code.
pub record StatCalls : Type 0 where
  pub stat_sync : Str → Either Str Stat
  pub lstat_sync : Str → Either Str Stat

-- `LinkOption` has one value.
pub data LinkOption : Type 0 where
  nofollow_links : LinkOption

-- The attributes of a path: its `Stat`.
pub record BasicFileAttributes : Type 0 where
  pub attrs : Stat

unfoldable pub attrs_is_directory : BasicFileAttributes → Bool
attrs_is_directory a = a.attrs.stat_is_directory

unfoldable pub attrs_is_symbolic_link : BasicFileAttributes → Bool
attrs_is_symbolic_link a = a.attrs.stat_is_symbolic_link

-- `Option.contains` of the one option that there is.
unfoldable pub has_nofollow : List LinkOption → Bool
has_nofollow [] = false
has_nofollow (nofollow_links ∷ os) = true

abbrev attributes : Either IoException Stat → Either IoException BasicFileAttributes
attributes (left x) = left x
attributes (right s) = right (record { attrs = s })

module _ (fs : StatCalls) where
  open fs use {stat_sync, lstat_sync}

  -- `NioWrappers.readAttributes(path, options)`
  unfoldable pub read_attributes : JsPath → List LinkOption → Either IoException BasicFileAttributes
  unfolding wrap has_nofollow
  read_attributes p os = attributes (wrap p (if has_nofollow os then lstat_sync p else stat_sync p))

-- `FileTime`
pub record FileTime : Type 0 where
  pub amount : Long
  pub time_unit : TimeUnit

-- `new FileTime(value, unit)` of milliseconds.
abbrev from_millis : ℤ → FileTime
from_millis z = record { amount = from_double z; time_unit = milliseconds }

module _ (divide : Long → Long → Long) where
  -- `toMillis()`
  unfoldable pub to_millis : FileTime → Long
  unfolding to_unit
  to_millis t = to_unit divide t.time_unit milliseconds t.amount

  -- `compareTo(other)`
  unfoldable pub compare_times : FileTime → FileTime → ℤ
  unfolding to_millis compare_long
  compare_times t u = compare_long (to_millis t) (to_millis u)

  -- `Files.getLastModifiedTime(path)`: an error of `fs` becomes an `IOException` with its text.
  abbrev timed : Either Str Stat → Either IoException FileTime
  timed (left code) = left (other code)
  timed (right s) = right (from_millis s.mtime)

  abbrev millis_or_zero : Either IoException FileTime → Long
  millis_or_zero (left x) = long 0 0
  millis_or_zero (right t) = to_millis t

  -- The converter: the time of the last change, or 0.
  unfoldable pub last_modified : (Str → Either Str Stat) → JsPath → Long
  unfolding to_millis from_double
  last_modified stat_sync p = millis_or_zero (timed (stat_sync p))

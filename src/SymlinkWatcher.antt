-- ===== src/SymlinkWatcher.antt =====
-- com/swoval/files/SymlinkWatcher.scala, as it stands in files/js/npm/files.js (`SymlinkWatcher`,
-- `SymlinkWatcher$RegisteredPath`): which links lead to which watched target. What it calls outside,
-- `toRealPath` and the watcher of the targets, is the record `Calls`. Its lock is held by one caller.
pub mod Used
pub mod Undone
pub mod Events
pub mod Followed
use file_tree_views.Base.{
  Bool, true, false, not, ◌&&◌, ◌||◌, Option, none, some, List, [], ◌∷◌, str_eq, ◌==◌,
  if◌then◌else◌,
}
use file_tree_views.Base.Int.{ℤ}
use file_tree_views.Base.Dict.{Dict, lookup, insert, erase}
use file_tree_views.Either.{Either, left, right, IoException, file_system_loop}
use file_tree_views.Path.{JsPath, starts_with}

pub record Calls : Type 0 where
  pub to_real_path : JsPath → Either IoException JsPath
  -- `watcher.register(path, maxDepth)`
  pub register : JsPath → ℤ → Either IoException Bool

-- `isClosed`, and the sets of links of `watchedSymlinksByTarget`.
pub record Links : Type 0 where
  pub is_closed : Bool
  pub targets : Dict JsPath (List JsPath)

abbrev pub has_link : JsPath → List JsPath → Bool
has_link p [] = false
has_link p (q ∷ qs) = p == q || has_link p qs

-- `paths.add(path)`
unfoldable pub add_link : JsPath → List JsPath → List JsPath
add_link p qs = if has_link p qs then qs else p ∷ qs

-- `paths.remove(path)`
unfoldable pub drop_link : JsPath → List JsPath → List JsPath
drop_link p [] = []
drop_link p (q ∷ qs) = let rest = drop_link p qs in if p == q then rest else q ∷ rest

abbrev pub set_target : JsPath → List JsPath → Links → Links
set_target t qs s = record s { targets = insert t qs s.targets }

-- The end of a call that may throw, with the state that it leaves.
abbrev pub Ended : Type 0
Ended = Either IoException (Unit {0}) × Links

abbrev pub registered : JsPath → JsPath → Links → Either IoException Bool → Ended
registered real p s (left x) = (left x, s)
registered real p s (right true) = (right tt, set_target real (p ∷ []) s)
registered real p s (right false) = (right tt, s)

abbrev pub linked : Calls → JsPath → JsPath → ℤ → Links → Option (List JsPath) → Ended
linked c real p n s none = registered real p s (c.register real n)
linked c real p n s (some qs) = (right tt, set_target real (add_link p qs) s)

abbrev pub resolved : Calls → JsPath → ℤ → Links → Either IoException JsPath → Ended
resolved c p n s (left x) = (left x, s)
resolved c p n s (right real) =
    if starts_with p real && not (p == real)
    then (left (file_system_loop p), s)
    else linked c real p n s (lookup real s.targets)

-- `addSymlink(path, maxDepth)`
unfoldable pub add_symlink : Calls → JsPath → ℤ → Links → Ended
add_symlink c p n s = if s.is_closed then (right tt, s) else resolved c p n s (c.to_real_path p)

-- The first target with the link.
unfoldable pub target_of : JsPath → Dict JsPath (List JsPath) → Option JsPath
target_of p [] = none
target_of p ((t, qs) ∷ ts) = if has_link p qs then some t else target_of p ts

abbrev pub is_empty : List JsPath → Bool
is_empty [] = true
is_empty (q ∷ qs) = false

abbrev pub shrunk : JsPath → JsPath → Links → Option (List JsPath) → Links
shrunk p t s none = s
shrunk p t s (some qs) =
    if is_empty (drop_link p qs)
    then record s { targets = erase t s.targets }
    else set_target t (drop_link p qs) s

abbrev pub removed_from : JsPath → Links → Option JsPath → Links
removed_from p s none = s
removed_from p s (some t) = shrunk p t s (lookup t s.targets)

-- `remove(path)`
unfoldable pub remove : JsPath → Links → Links
unfolding target_of drop_link
remove p s = if s.is_closed then s else removed_from p s (target_of p s.targets)

-- `close()`
unfoldable pub close : Links → Links
close s = if s.is_closed then s else record { is_closed = true; targets = [] }

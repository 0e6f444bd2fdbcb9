-- ===== src/FileTreeView/Steps.antt =====
-- The state of a `Lister` and the ways in which a step of it ends.
use file_tree_views.Base.{Bool, true, List, []}
use file_tree_views.Either.{Either, left, right, IoException}
use file_tree_views.Path.{JsPath}
use file_tree_views.TypedPath.{TypedPath}

-- The set of visited paths, and the list that is filled.
pub record State : Type 0 where
  pub visited : List JsPath
  pub result : List TypedPath

-- A step ends, throws an `IOException`, or has no fuel left; what it did to the state stays done.
pub data Outcome (A : Type 0) : Type 0 where
  done : A → State → Outcome A
  threw : IoException → State → Outcome A
  exhausted : Outcome A

abbrev pub M : Type 0 → Type 0
M A = State → Outcome A

infixl 5 ◌>>=◌ ◌>>◌
abbrev pub and_then : {A B : Type 0} → Outcome A → (A → M B) → Outcome B
and_then (done a s) f = f a s
and_then (threw x s) f = threw x s
and_then exhausted f = exhausted

abbrev pub ◌>>=◌ : {A B : Type 0} → M A → (A → M B) → M B
◌>>=◌ m f s = and_then (m s) f

abbrev pub ◌>>◌ : {B : Type 0} → M (Unit {0}) → M B → M B
m >> k = m >>= λ _. k

abbrev pub pure : {A : Type 0} → A → M A
pure a s = done a s

-- A call outside that may throw.
abbrev pub call : {A : Type 0} → Either IoException A → M A
call (left x) s = threw x s
call (right a) s = done a s

-- `try body catch { case e: IOException => if (!ignore) throw e }`
abbrev pub caught : Bool → Outcome (Unit {0}) → Outcome (Unit {0})
caught true (threw x s) = done tt s
caught ignore o = o

abbrev pub catching : Bool → M (Unit {0}) → M (Unit {0})
catching ignore m s = caught ignore (m s)

-- `try body finally visited.clear()`
abbrev pub cleared : Outcome (Unit {0}) → Outcome (Unit {0})
cleared (done a s) = done a (record s { visited = [] })
cleared (threw x s) = threw x (record s { visited = [] })
cleared exhausted = exhausted

abbrev pub clearing : M (Unit {0}) → M (Unit {0})
clearing m s = cleared (m s)

-- ===== src/Locks.antt =====
-- com/swoval/files/Lockable.scala and its LockableMap, as they stand in files/js/npm/files.js.
-- A method is a state function on the map and its lock; `none` is a thrown
-- `IllegalMonitorStateException`. The interrupt flag is that of the one thread that there is.
pub mod Laws
use file_tree_views.Base.{
  ℕ, zero, suc, keep, Bool, true, false, Option, none, some, List, Eq, Str, ◌++◌, ltb,
  if◌then◌else◌,
}
use file_tree_views.Base.Text.{codes}
use file_tree_views.Base.Dict.{Dict, lookup, insert, erase, values}

-- The count of the `ReentrantLock`, and whether the thread was interrupted.
pub record Lock : Type 0 where
  pub holds : ℕ
  pub interrupted : Bool

pub record LockableMap (K V : Type 0) : Type 0 where
  pub guard : Lock
  pub entries : Dict K V

-- `new ReentrantLock()`
abbrev pub new_lock : Lock
new_lock = record { holds = 0; interrupted = false }

-- The end of `ReentrantLock.toString`.
abbrev pub lock_text : Lock → Str
lock_text l =
    codes "[" ++ (if ltb 0 l.holds then codes "Locked by main" else codes "Unlocked") ++ codes "]"

-- `AtomicBoolean.compareAndSet(false, true)`
unfoldable pub compare_and_set : Bool → Bool × Bool
compare_and_set false = (true, true)
compare_and_set true = (false, true)

-- `lock()`: `tryLock` clears the interrupt flag and throws if it was set, which `lock` catches.
unfoldable pub try_lock : Lock → Bool × Lock
try_lock l =
    if l.interrupted
    then (false, record l { interrupted = false })
    else (true, record l { holds = suc l.holds })

-- `unlock()` of a lock that is not held throws.
unfoldable pub release : ℕ → Option ℕ
release zero = none
release (suc n) = some n

-- A method that may throw, over the state `S`.
abbrev pub M : Type 0 → Type 0 → Type 0
M S A = S → Option (A × S)

infixl 5 ◌>>=◌ ◌>>◌
abbrev pub ◌>>=◌ : {S A B : Type 0} → M S A → (A → M S B) → M S B
◌>>=◌ f g s = elim (f s) [ none ↦ none | some (a, s') ↦ g a s' ]

abbrev pub ◌>>◌ : {S B : Type 0} → M S (Unit {0}) → M S B → M S B
f >> g = f >>= λ _. g

abbrev pub pure : {S A : Type 0} → A → M S A
pure a s = some (a, s)

module _ {K V : Type 0} where
  unfoldable pub lock : M (LockableMap K V) Bool
  unfolding try_lock
  lock m = let (done, l) = try_lock m.guard in some (done, record m { guard = l })

  unfoldable pub unlock : M (LockableMap K V) (Unit {0})
  unfolding release
  unlock m = elim (release m.guard.holds) [
    | none ↦ none
    | some n ↦ some (tt, record m { guard = record m.guard { holds = n } })
  ]

  abbrev finish : {A : Type 0} → M (LockableMap K V) A → M (LockableMap K V) A
  finish body = do a ← body; unlock; pure a

  -- `if (lock()) try body finally unlock() else failed`
  unfoldable pub with_lock : {A : Type 0} → M (LockableMap K V) A → A → M (LockableMap K V) A
  unfolding lock unlock
  with_lock body failed = do done ← lock; if done then finish body else pure failed

module _ {K V : Type 0} ⦃e : Eq K⦄ where
  unfoldable pub get : K → M (LockableMap K V) (Option V)
  unfolding with_lock
  get k = with_lock (λ m. some (lookup k m.entries, m)) none

  -- The value is what was there before.
  unfoldable pub put : K → V → M (LockableMap K V) (Option V)
  unfolding with_lock
  put k v =
      with_lock (λ m. some (lookup k m.entries, record m { entries = insert k v m.entries })) none

  unfoldable pub remove : K → M (LockableMap K V) (Option V)
  unfolding with_lock
  remove k =
      with_lock (λ m. some (lookup k m.entries, record m { entries = erase k m.entries })) none

module _ {K V : Type 0} where
  -- `values()` is a copy; the default is the empty list.
  unfoldable pub values_of : M (LockableMap K V) (List V)
  unfolding with_lock
  values_of = with_lock (λ m. some (values m.entries, m)) List.[]

  -- `iterator()` walks a copy of the entry set.
  unfoldable pub iterator : M (LockableMap K V) (Dict K V)
  unfolding with_lock
  iterator = with_lock (λ m. some (m.entries, m)) List.[]

  -- `clear()` closes the values that are `AutoCloseable`, whatever their `close` throws, and
  -- empties the map. The result lists the values that were closed.
  unfoldable pub clear : (V → Bool) → M (LockableMap K V) (List V)
  unfolding with_lock
  clear closeable =
      with_lock (λ m. some (keep closeable (values m.entries), record m { entries = List.[] }))
        List.[]

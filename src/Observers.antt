-- ===== src/Observers.antt =====
-- com/swoval/files/Observers.scala and CacheObservers.scala, as they stand in files/js/npm/files.js
-- (`Observers`, `CacheObservers`). An observer is a value of `O`; whether its callback throws on a
-- notification is the parameter `throws`. A notification is the list of the callbacks that were
-- entered, in their order, and whether an exception left the loop.
pub mod Notify
pub mod Handles
use file_tree_views.Base.{Bool, true, false, List, [], ◌∷◌, if◌then◌else◌}
use file_tree_views.Base.Int.{ℤ, pos, ◌+ℤ◌, to_int32, int_eq}
use file_tree_views.Base.Dict.{Dict, insert, erase, values}

-- The counter is an `AtomicInteger`, the observers a `LinkedHashMap`, in the order of registration.
pub record Observers (O : Type 0) : Type 0 where
  pub counter : ℤ
  pub observers : Dict ℤ O

pub record Notified (O : Type 0) : Type 0 where
  pub calls : List O
  pub thrown : Bool

module _ {O : Type 0} where
  pub no_observers : Observers O
  no_observers = record { counter = pos 0; observers = [] }

  -- `addObserver`, and `addCacheObserver`: the handle, and the new state.
  unfoldable pub add_observer : O → Observers O → ℤ × Observers O
  add_observer o s = (
    s.counter,
    record { counter = to_int32 (pos 1 +ℤ s.counter); observers = insert s.counter o s.observers },
  )

  unfoldable pub remove_observer : ℤ → Observers O → Observers O
  remove_observer handle s = record s { observers = erase handle s.observers }

  unfoldable pub close : Observers O → Observers O
  close s = record s { observers = [] }

  -- The loop of `onNext`, `onCreate`, `onUpdate`, `onDelete` and of `Observers.onError`: what a
  -- callback throws is caught.
  unfoldable pub guarded_loop : (O → Bool) → List O → Notified O
  guarded_loop throws [] = record { calls = []; thrown = false }
  guarded_loop throws (o ∷ os) =
      let rest = guarded_loop throws os in record rest { calls = o ∷ rest.calls }

  -- The loop of `CacheObservers.onError`: what a callback throws leaves it.
  unfoldable pub open_loop : (O → Bool) → List O → Notified O
  open_loop throws [] = record { calls = []; thrown = false }
  open_loop throws (o ∷ os) =
      let rest = open_loop throws os in
      if throws o
      then record { calls = o ∷ []; thrown = true }
      else record rest { calls = o ∷ rest.calls }

  -- `Observers.onNext` and `onError`; `CacheObservers.onCreate`, `onUpdate` and `onDelete`.
  unfoldable pub on_next : (O → Bool) → Observers O → Notified O
  on_next throws s = guarded_loop throws (values s.observers)

  -- `CacheObservers.onError`
  unfoldable pub on_cache_error : (O → Bool) → Observers O → Notified O
  on_cache_error throws s = open_loop throws (values s.observers)

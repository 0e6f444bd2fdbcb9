-- ===== src/Observers/Notify.antt =====
-- Who is told, by the guarded loop and by the loop of `CacheObservers.onError`.
use file_tree_views.Base.{◌≡◌, refl, Bool, true, false, List, [], ◌∷◌, ◌++◌, All}
use file_tree_views.Base.Dict.{values}
use file_tree_views.Observers.{Observers, guarded_loop, open_loop, on_next, on_cache_error}

module _ {O : Type 0} (throws : O → Bool) where
  guarded_loop_all : (os : List O) → guarded_loop throws os ≡ record { calls = os; thrown = false }
  unfolding guarded_loop
  guarded_loop_all [] = refl
  guarded_loop_all (o ∷ os) = rw (guarded_loop_all os)

  open_loop_stops :
      (os rest : List O) (o : O)
      → All (λ q. throws q ≡ false) os
      → throws o ≡ true
      → open_loop throws (os ++ o ∷ rest) ≡ record { calls = os ++ o ∷ []; thrown = true }
  unfolding open_loop
  open_loop_stops [] rest o calm h = rw h
  open_loop_stops (q ∷ os) rest o (c, calm) h = rw (c, open_loop_stops os rest o calm h)

-- A notification reaches every registered observer, in the order of registration and whichever of
-- them throw, and no exception leaves it. An error of a cache observer is another matter: if the
-- observers are `os`, then `o`, then `rest`, and `o` is the first that throws, then those of `rest`
-- are not told, and the exception leaves the loop.
pub on_next-on_cache_error :
    {O : Type 0} (throws : O → Bool) (s : Observers O) (os rest : List O) (o : O)
    → values s.observers ≡ os ++ o ∷ rest
    → All (λ q. throws q ≡ false) os
    → throws o ≡ true
    → (on_next throws s ≡ record { calls = os ++ o ∷ rest; thrown = false })
      × (on_cache_error throws s ≡ record { calls = os ++ o ∷ []; thrown = true })
unfolding on_next on_cache_error
on_next-on_cache_error throws s os rest o e calm h =
    rw e (guarded_loop_all throws (os ++ o ∷ rest), open_loop_stops throws os rest o calm h)

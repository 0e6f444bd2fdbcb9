-- ===== src/Locks/Laws.antt =====
-- What a guarded section comes to, for a thread that was not interrupted and for one that was.
use file_tree_views.Base.{
  suc, keep, ◌≡◌, refl, ap, Bool, true, false, some, List, Eq, ◌==◌, arith, if◌then◌else◌,
}
use file_tree_views.Base.Dict.{lookup, insert, erase, values, lookup-insert}
use file_tree_views.Locks.{LockableMap, M, with_lock, get, put, remove, values_of, iterator, clear}

module _ {K V : Type 0} where
  -- The map while its lock is held once more.
  abbrev pub held : LockableMap K V → LockableMap K V
  held m = record m { guard = record m.guard { holds = suc m.guard.holds } }

  -- The map of an interrupted thread, once `lock()` has cleared the flag.
  abbrev pub woken : LockableMap K V → LockableMap K V
  woken m = record m { guard = record m.guard { interrupted = false } }

  -- A guarded section whose body keeps the lock held ends with the lock as it was before, and with
  -- the body's result.
  pub with_lock_runs :
      {A : Type 0} (body : M (LockableMap K V) A) (failed a : A) (m n : LockableMap K V)
      → m.guard.interrupted ≡ false
      → body (held m) ≡ some (a, held n)
      → with_lock body failed m ≡ some (a, n)
  unfolding with_lock
  with_lock_runs body failed a m n free runs = ground arith

  pub with_lock_interrupted :
      {A : Type 0} (body : M (LockableMap K V) A) (failed : A) (m : LockableMap K V)
      → m.guard.interrupted ≡ true
      → with_lock body failed m ≡ some (failed, woken m)
  unfolding with_lock
  with_lock_interrupted body failed m set = ground arith

module _ {K V : Type 0} ⦃e : Eq K⦄ (m : LockableMap K V) (free : m.guard.interrupted ≡ false) where
  pub get_runs : (k : K) → get k m ≡ some (lookup k m.entries, m)
  unfolding get
  get_runs k = ground arith

  pub put_runs :
      (k : K) (v : V)
      → put k v m ≡ some (lookup k m.entries, record m { entries = insert k v m.entries })
  unfolding put
  put_runs k v = ground arith

  pub remove_runs :
      (k : K) → remove k m ≡ some (lookup k m.entries, record m { entries = erase k m.entries })
  unfolding remove
  remove_runs k = ground arith

module _ {K V : Type 0} (m : LockableMap K V) (free : m.guard.interrupted ≡ false) where
  pub values_of_runs : values_of m ≡ some (values m.entries, m)
  unfolding values_of
  values_of_runs = ground arith

  pub iterator_runs : iterator m ≡ some (m.entries, m)
  unfolding iterator
  iterator_runs = ground arith

  pub clear_runs :
      (closeable : V → Bool)
      → clear closeable m ≡ some (keep closeable (values m.entries), record m { entries = List.[] })
  unfolding clear
  clear_runs closeable = ground arith

module _ {K V : Type 0} ⦃e : Eq K⦄ where
  -- In a thread that was not interrupted, `put` gives back what the key had, and then `get` gives
  -- the new value at that key and the old ones elsewhere, with the lock as it was.
  pub get-put :
      (j k : K) (v : V) (m : LockableMap K V)
      → m.guard.interrupted ≡ false
      → (n : LockableMap K V) × (put k v m ≡ some (lookup k m.entries, n))
        × (get j n ≡ some (if j == k then some v else lookup j m.entries, n))
        × (n.guard ≡ m.guard)
  get-put j k v m free = (
    record m { entries = insert k v m.entries },
    put_runs m free k v,
    rw (get_runs (record m { entries = insert k v m.entries }) free j) (
        ap (λ o. some (o, record m { entries = insert k v m.entries }))
          (lookup-insert j k v m.entries)),
    refl,
  )

-- ===== src/Observers/Handles.antt =====
-- The handles that `addObserver` gives out.
use file_tree_views.Base.{◌≡◌, refl, none, some, [], ◌∷◌, All, arith, ◌==◌, if◌then◌else◌}
use file_tree_views.Base.Int.{ℤ, pos, ◌<ℤ◌, ◌≤ℤ◌, max_value, ◌+ℤ◌, to_int32, to_int32_fits, int_eq}
use file_tree_views.Base.Dict.{Dict, lookup, insert, erase, lookup-insert, lookup-erase}
use file_tree_views.Observers.{Observers, add_observer, remove_observer}

next_counter : (z : ℤ) → pos 0 ≤ℤ z → z <ℤ max_value → to_int32 (pos 1 +ℤ z) ≡ pos 1 +ℤ z
next_counter z l h = to_int32_fits (pos 1 +ℤ z) (ground arith) (ground arith)

suc_nonneg : (z : ℤ) → pos 0 ≤ℤ z → pos 0 ≤ℤ pos 1 +ℤ z
suc_nonneg z h = ground arith

lt_suc : (z : ℤ) → z <ℤ pos 1 +ℤ z
lt_suc z = ground arith

le_suc : (z : ℤ) → z ≤ℤ pos 1 +ℤ z
le_suc z = ground arith

module _ {O : Type 0} where
  -- Every handle that was given out lies below the counter.
  abbrev pub Below : ℤ → Dict ℤ O → Type 0
  Below n = All (λ (k, o). k <ℤ n)

  pub record IsFresh (s : Observers O) : Type 0 where
    pub started : pos 0 ≤ℤ s.counter
    pub below : Below s.counter s.observers

  lookup-Below : (k n : ℤ) (d : Dict ℤ O) → Below n d → n ≤ℤ k → lookup k d ≡ none
  unfolding lookup
  lookup-Below k n [] b h = refl
  lookup-Below k n ((j, o) ∷ d) (b, bs) h = ground (arith, lookup-Below k n d bs h)

  Below-mono : (m n : ℤ) (d : Dict ℤ O) → m ≤ℤ n → Below m d → Below n d
  Below-mono m n [] h b = tt
  Below-mono m n ((j, o) ∷ d) h (b, bs) = (ground arith, Below-mono m n d h bs)

  insert-Below : (k n : ℤ) (o : O) (d : Dict ℤ O) → k <ℤ n → Below n d → Below n (insert k o d)
  unfolding insert
  insert-Below k n o [] h b = (h, tt)
  insert-Below k n o ((j, q) ∷ d) h (b, bs) = ground (arith, insert-Below k n o d h bs)

  erase-Below : (k n : ℤ) (d : Dict ℤ O) → Below n d → Below n (erase k d)
  unfolding erase
  erase-Below k n [] b = tt
  erase-Below k n ((j, q) ∷ d) (b, bs) = ground (arith, erase-Below k n d bs)

  -- While the counter is below the greatest integer, `addObserver` gives out a handle that no
  -- observer has, registers the observer under it and leaves the others as they are, and the
  -- handles stay below the counter, which has grown by one.
  pub add_observer-IsFresh :
      (o : O) (s : Observers O)
      → IsFresh s
      → s.counter <ℤ max_value
      → (lookup (add_observer o s).0 s.observers ≡ none)
        × ((k : ℤ)
            → lookup k (add_observer o s).1.observers
              ≡ (if k == (add_observer o s).0 then some o else lookup k s.observers))
        × ((add_observer o s).1.counter ≡ pos 1 +ℤ s.counter)
        × IsFresh (add_observer o s).1
  unfolding add_observer
  add_observer-IsFresh o s fresh small =
      let next : to_int32 (pos 1 +ℤ s.counter) ≡ pos 1 +ℤ s.counter =
        next_counter s.counter fresh.started small in
      (
        lookup-Below s.counter s.counter s.observers fresh.below (ground arith),
        λ k. lookup-insert k s.counter o s.observers,
        next,
        rw next (record {
          started = suc_nonneg s.counter fresh.started;
          below = insert-Below s.counter (pos 1 +ℤ s.counter) o s.observers (lt_suc s.counter) (
              Below-mono s.counter (pos 1 +ℤ s.counter) s.observers (le_suc s.counter) fresh.below);
        }),
      )

  -- `removeObserver` takes away the observer of its handle and no other, and no handle is given out
  -- again for that.
  pub remove_observer-IsFresh :
      (h : ℤ) (s : Observers O)
      → IsFresh s
      → ((k : ℤ)
          → lookup k (remove_observer h s).observers
            ≡ (if k == h then none else lookup k s.observers))
        × IsFresh (remove_observer h s)
  unfolding remove_observer
  remove_observer-IsFresh h s fresh = (
    λ k. lookup-erase k h s.observers,
    record { started = fresh.started; below = erase-Below h s.counter s.observers fresh.below },
  )

-- ===== src/PollingWatcher/PeriodicTask.antt =====
-- `PeriodicTask`: a runnable that is run at once, and then at every tick of an interval of node's
-- timers. A timer's ticks are outside; a cleared interval has none.
use file_tree_views.Base.{ℕ, zero, suc, Option, none, some, ◌≡◌, refl, ap, ◌∙◌}
use file_tree_views.Base.Int.{ℤ}
use file_tree_views.Long.{Long, to_double}

-- The milliseconds of the interval, or `none` when it is cleared, and what the runnable changes.
pub record Task (S : Type 0) : Type 0 where
  pub interval : Option ℤ
  pub state : S

module _ {S : Type 0} (run : S → S) where
  -- `new PeriodicTask(runnable, milliseconds)`
  unfoldable pub start : Long → S → Task S
  unfolding to_double
  start ms s = record { interval = some (to_double ms); state = run s }

  abbrev ticked : Option ℤ → Task S → Task S
  ticked none t = t
  ticked (some ms) t = record t { state = run t.state }

  -- A tick of the timer.
  unfoldable pub tick : Task S → Task S
  tick t = ticked t.interval t

-- `close()`
unfoldable pub close_task : {S : Type 0} → Task S → Task S
close_task t = record t { interval = none }

-- A number of ticks, and of runs.
abbrev pub times {ℓ} : {A : Type ℓ} → (A → A) → ℕ → A → A
times f zero a = a
times f (suc n) a = f (times f n a)

module _ {S : Type 0} (run : S → S) where
  ticks-state :
      (t : Task S) (ms : ℤ)
      → t.interval ≡ some ms
      → (n : ℕ) → times (tick run) n t ≡ record t { state = times run n t.state }
  unfolding tick
  ticks-state t ms h zero = refl
  ticks-state t ms h (suc n) = ap (tick run) (ticks-state t ms h n) ∙ simp h

  ticks-closed : (t : Task S) (n : ℕ) → t.interval ≡ none → times (tick run) n t ≡ t
  unfolding tick
  ticks-closed t zero h = refl
  ticks-closed t (suc n) h = ap (tick run) (ticks-closed t n h) ∙ simp h

  times-first : (n : ℕ) (s : S) → times run n (run s) ≡ run (times run n s)
  times-first zero s = refl
  times-first (suc n) s = ap run (times-first n s)

  -- A task runs once when it is made and once at every tick until it is closed; after that the ticks
  -- change nothing.
  pub start-close_task :
      (ms : Long) (s : S) (n k : ℕ)
      → (times (tick run) k (close_task (times (tick run) n (start run ms s)))).state
        ≡ times run (suc n) s
  unfolding start close_task
  start-close_task ms s n k =
      let t = start run ms s in
      ap (λ (x : Task S). x.state) (ticks-closed (close_task (times (tick run) n t)) k refl)
      ∙ ap (λ (x : Task S). x.state) (ticks-state t (to_double ms) refl n)
      ∙ times-first n s

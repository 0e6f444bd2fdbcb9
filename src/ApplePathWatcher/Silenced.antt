-- ===== src/ApplePathWatcher/Silenced.antt =====
-- The calls of the native module before and after a `FileEventMonitor` is closed.
use file_tree_views.Base.{
  ℕ, Bool, true, false, List, [], ◌∷◌, ◌++◌, Str, ◌≡◌, refl, sym, ap, ◌∙◌, subst, arith, All,
  Bool-cases, inl, inr, if◌then◌else◌,
}
use mathlib.Core.List.{append-nil}
use file_tree_views.Base.Int.{ℤ}
use file_tree_views.Long.{Long}
use file_tree_views.TimeUnit.{TimeUnit}
use file_tree_views.ApplePathWatcher.Monitor.{
  Handle, handle_impl, invalid_handle, Call, create_stream_call, stop_stream_call, close_call,
  Monitor, new_monitor, create_stream, stop_stream, close_monitor, with_call, stream_call,
}

pub data Request : Type 0 where
  creating : Str → Long → TimeUnit → ℕ → Request
  stopping : Handle → Request
  closing : Request

abbrev pub NotClose : Call → Type 0
NotClose (create_stream_call p n f h) = Unit
NotClose (stop_stream_call h s) = Unit
NotClose (close_call h) = ⊥

-- The native monitor was closed once, by the last call, if the monitor is closed; and else never.
abbrev pub IsOrderly : Monitor → Type 0
IsOrderly m =
    (cs : List Call) × All NotClose cs
    × (m.calls ≡ cs ++ (if m.is_closed then close_call m.number ∷ [] else []))

module _ (divide : Long → Long → Long) (answer : Call → ℤ) where
  -- What a request leaves of the monitor.
  abbrev pub served : Request → Monitor → Monitor
  served (creating p n u f) m = (create_stream divide answer p n u f m).1
  served (stopping h) m = (stop_stream h m).1
  served closing m = close_monitor m

  abbrev pub serve_all : List Request → Monitor → Monitor
  serve_all [] m = m
  serve_all (r ∷ rs) m = serve_all rs (served r m)

  All-snoc :
      (cs : List Call) (c : Call) → All NotClose cs → NotClose c → All NotClose (cs ++ c ∷ [])
  All-snoc [] c a n = (n, tt)
  All-snoc (b ∷ cs) c (x, a) n = (x, All-snoc cs c a n)

  closing_call : Bool → ℤ → List Call
  closing_call b h = if b then close_call h ∷ [] else []

  -- A call that is not `close`, of a monitor that is open.
  with_call-IsOrderly :
      (m : Monitor) (c : Call)
      → NotClose c
      → m.is_closed ≡ false
      → IsOrderly m
      → IsOrderly (with_call c m)
  unfolding closing_call
  with_call-IsOrderly m c n h (cs, a, e) =
      let bare =
        λ (x : List Call). ap (λ (b : Bool). x ++ closing_call b m.number) h ∙ append-nil x in
      (
        cs ++ c ∷ [],
        All-snoc cs c a n,
        ap (λ (x : List Call). x ++ c ∷ []) (e ∙ bare cs) ∙ sym (bare (cs ++ c ∷ [])),
      )

  -- The native `close` itself.
  closed-IsOrderly :
      (m : Monitor)
      → m.is_closed ≡ false
      → IsOrderly m
      → IsOrderly (record (with_call (close_call m.number) m) { is_closed = true })
  unfolding closing_call
  closed-IsOrderly m h (cs, a, e) =
      let bare =
        λ (x : List Call). ap (λ (b : Bool). x ++ closing_call b m.number) h ∙ append-nil x in
      (cs, a, ap (λ (x : List Call). x ++ close_call m.number ∷ []) (e ∙ bare cs))

  -- A closed monitor stays as it is.
  served_closed : (r : Request) (m : Monitor) → m.is_closed ≡ true → served r m ≡ m
  unfolding create_stream stop_stream close_monitor
  served_closed (creating p n u f) m h = ground arith
  served_closed (stopping (handle_impl i)) m h = ground arith
  served_closed (stopping invalid_handle) m h = refl
  served_closed closing m h = simp h

  served_open :
      (r : Request) (m : Monitor) → m.is_closed ≡ false → IsOrderly m → IsOrderly (served r m)
  unfolding create_stream stop_stream close_monitor
  served_open (creating p n u f) m h o =
      let c = stream_call divide answer p n u f m in
      let e : served (creating p n u f) m ≡ with_call c m = ground arith in
      subst IsOrderly (sym e) (with_call-IsOrderly m c tt h o)
  served_open (stopping (handle_impl i)) m h o =
      let c = stop_stream_call m.number i in
      let e : served (stopping (handle_impl i)) m ≡ with_call c m = ground arith in
      subst IsOrderly (sym e) (with_call-IsOrderly m c tt h o)
  served_open (stopping invalid_handle) m h o = o
  served_open closing m h o = simp h (closed-IsOrderly m h o)

  served-IsOrderly : (r : Request) (m : Monitor) → IsOrderly m → IsOrderly (served r m)
  served-IsOrderly r m o = elim (Bool-cases m.is_closed) [
    | inl h ↦ subst IsOrderly (sym (served_closed r m h)) o
    | inr h ↦ served_open r m h o
  ]

  serve_all-IsOrderly : (rs : List Request) (m : Monitor) → IsOrderly m → IsOrderly (serve_all rs m)
  serve_all-IsOrderly [] m o = o
  serve_all-IsOrderly (r ∷ rs) m o = serve_all-IsOrderly rs (served r m) (served-IsOrderly r m o)

  -- Whatever a new monitor is asked: its calls of the native module hold no `close` as long as it is
  -- open; if it is closed, `close` is the last of them and the only one of its kind.
  pub serve_all-new_monitor : (h : ℤ) (rs : List Request) → IsOrderly (serve_all rs (new_monitor h))
  unfolding new_monitor
  serve_all-new_monitor h rs = serve_all-IsOrderly rs (new_monitor h) ([], tt, refl)

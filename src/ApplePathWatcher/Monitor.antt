-- ===== src/ApplePathWatcher/Monitor.antt =====
-- `FileEventMonitors`, `FileEventMonitor` and its handles: the calls of the native module. The
-- latency that the module is given is a double, the nanoseconds divided by 10 ^ 9.
use file_tree_views.Base.{ℕ, ◌%◌, Bool, true, false, List, [], ◌∷◌, ◌++◌, Str, if◌then◌else◌}
use file_tree_views.Base.Int.{ℤ, eq_ℤ}
use file_tree_views.Base.Text.{codes}
use file_tree_views.Either.{Either, left, right}
use file_tree_views.Long.{Long, word, to_double}
use file_tree_views.TimeUnit.{TimeUnit, nanoseconds, to_unit}
use file_tree_views.ApplePathWatcher.FileEvents.{FileEvent}

-- `Handles.INVALID`, and a `HandleImpl` of a stream's number.
pub data Handle : Type 0 where
  invalid_handle : Handle
  handle_impl : ℤ → Handle

-- `HandleImpl.equals`, and what every object has.
unfoldable pub handle_equals : Handle → Handle → Bool
handle_equals (handle_impl i) (handle_impl j) = eq_ℤ i j
handle_equals (handle_impl i) invalid_handle = false
handle_equals invalid_handle (handle_impl j) = false
handle_equals invalid_handle invalid_handle = true

-- What is thrown: an `IllegalStateException`, a `ClosedFileEventMonitorException` or a `MatchError`.
pub data MonitorError : Type 0 where
  illegal_state : Str → MonitorError
  monitor_closed : MonitorError
  match_error : Handle → MonitorError

-- A call of the native module.
pub data Call : Type 0 where
  create_stream_call : Str → ℤ → ℕ → ℤ → Call
  stop_stream_call : ℤ → ℤ → Call
  close_call : ℤ → Call

-- The number of the native monitor, whether it is closed, and the calls that were made.
pub record Monitor : Type 0 where
  pub number : ℤ
  pub is_closed : Bool
  pub calls : List Call

abbrev pub with_call : Call → Monitor → Monitor
with_call c m = record m { calls = m.calls ++ c ∷ [] }

-- `new FileEventMonitor(handle)`
unfoldable pub new_monitor : ℤ → Monitor
new_monitor h = record { number = h; is_closed = false; calls = [] }

-- "Tried to call create stream for …"
unfoldable pub refused : Str → Str
refused p = codes "Tried to call create stream for " ++ p ++ codes " on closed FileEventMonitor"

-- `stopStream(handle)`
unfoldable pub stop_stream : Handle → Monitor → Either MonitorError (Unit {0}) × Monitor
stop_stream (handle_impl i) m =
    if m.is_closed
    then (left monitor_closed, m)
    else (right tt, with_call (stop_stream_call m.number i) m)
stop_stream invalid_handle m =
    (left (if m.is_closed then monitor_closed else match_error invalid_handle), m)

-- `close()`
unfoldable pub close_monitor : Monitor → Monitor
close_monitor m =
    if m.is_closed then m else record (with_call (close_call m.number) m) { is_closed = true }

-- `createStream(path, latency, timeUnit, flags)`. The native module answers a call with the number
-- of the stream.
module _ (divide : Long → Long → Long) (answer : Call → ℤ) where
  abbrev pub stream_call : Str → Long → TimeUnit → ℕ → Monitor → Call
  stream_call p n u f m =
      create_stream_call p (to_double (to_unit divide u nanoseconds n)) f m.number

  unfoldable pub create_stream :
      Str → Long → TimeUnit → ℕ → Monitor → Either MonitorError Handle × Monitor
  unfolding to_unit to_double refused
  create_stream p n u f m = if m.is_closed then (left (illegal_state (refused p)), m) else (
    right (handle_impl (answer (stream_call p n u f m))),
    with_call (stream_call p n u f m) m,
  )

-- The first callback of `FileEventMonitors.get`: the native module gives a name and the flags.
unfoldable pub on_native_event : {S : Type 0} → (FileEvent → S → S) → Str → ℕ → S → S
on_native_event consume name f s = consume (record { file_name = name; flags = f % word }) s

-- The second: a stream that was removed.
unfoldable pub on_native_stream : {S : Type 0} → (Str → S → S) → Str → S → S
on_native_stream consume name s = consume name s

-- The native module by its names, where `load` is `require` and the error says whether `NonFatal`
-- takes it.
unfoldable pub load_facade : {A : Type 0} → (Str → Either Bool A) → Either Bool A
load_facade load = elim (load (codes "lib/swoval_apple_file_system.node")) [
  | right a ↦ right a
  | left non_fatal ↦
      if non_fatal then load (codes "./lib/swoval_apple_file_system.node") else left false
]

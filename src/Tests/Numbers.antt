-- ===== src/Tests/Numbers.antt =====
-- Witnesses for the longs, the units of time and what is built on them.
use file_tree_views.Base.{arith, [], ◌∷◌}
use file_tree_views.Base.Int.{pos}
use file_tree_views.Long.{long}
use file_tree_views.Long.Values.{Orders}
use file_tree_views.TimeUnit.{milliseconds, seconds}
use file_tree_views.TimeUnit.Whole.{long_quotient}
use file_tree_views.NodeFiles.Attributes.{FileTime, compare_times}
use file_tree_views.ApplePathWatcher.Monitor.{handle_impl, new_monitor}
use file_tree_views.ApplePathWatcher.Silenced.{
  creating, stopping, closing, serve_all, IsOrderly, serve_all-new_monitor,
}
use file_tree_views.NodeFiles.Times.{millis, compare_times-millis}

five_seconds : FileTime
five_seconds = record { amount = long 5 0; time_unit = seconds }

some_millis : FileTime
some_millis = record { amount = long 4999 0; time_unit = milliseconds }

compare_times-millis_example :
    Orders
      (compare_times long_quotient some_millis five_seconds)
      (millis some_millis)
      (millis five_seconds)
unfolding five_seconds some_millis
compare_times-millis_example =
    compare_times-millis some_millis five_seconds (omega arith) (omega arith) (omega arith)
      (omega arith)

serve_all-new_monitor_example : IsOrderly (
    serve_all long_quotient
      (λ c. pos 7)
      (creating (b'/' ∷ []) (long 5 0) seconds 18
        ∷ closing
        ∷ stopping (handle_impl (pos 7))
        ∷ closing
        ∷ [])
      (new_monitor (pos 1)))
serve_all-new_monitor_example =
    serve_all-new_monitor long_quotient (λ c. pos 7) (pos 1)
      (creating (b'/' ∷ []) (long 5 0) seconds 18
        ∷ closing
        ∷ stopping (handle_impl (pos 7))
        ∷ closing
        ∷ [])

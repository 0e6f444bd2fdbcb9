-- ===== src/Throwables/Hierarchy.antt =====
-- The order of the classes of throwables, and the `catch` clauses.
use file_tree_views.Base.{Bool, true, ◌≡◌, refl, arith, ◌||◌, ◌&&◌, not, List, [], ◌∷◌, All}
use file_tree_views.Throwables.{
  Class, ancestors, has_class, is_instance, is_same, Thrown, object, js_exception, js_value,
  wrap_thrown, unwrap_thrown, is_exception, is_io_exception, throwable, exception,
  runtime_exception, error, file_system_exception, control_throwable, no_stack_trace, io_exception,
  coder_malfunction_error, assertion_error, interrupted_exception, not_implemented_error,
  closed_file_event_monitor_exception, not_left_exception, not_right_exception,
  arithmetic_exception, illegal_argument_exception, illegal_monitor_state_exception,
  illegal_state_exception, index_out_of_bounds_exception, null_pointer_exception,
  unsupported_operation_exception, no_such_element_exception, match_error, break_control,
  non_local_return_control, access_denied_exception, file_system_loop_exception,
  no_such_file_exception, not_directory_exception, number_format_exception, java_script_exception,
}

unfoldable all_classes : List Class
all_classes =
    throwable ∷ exception ∷ runtime_exception ∷ error ∷ file_system_exception ∷ control_throwable
    ∷ no_stack_trace ∷ io_exception ∷ coder_malfunction_error ∷ assertion_error
    ∷ interrupted_exception ∷ not_implemented_error ∷ closed_file_event_monitor_exception
    ∷ not_left_exception ∷ not_right_exception ∷ arithmetic_exception ∷ illegal_argument_exception
    ∷ illegal_monitor_state_exception ∷ illegal_state_exception ∷ index_out_of_bounds_exception
    ∷ null_pointer_exception ∷ unsupported_operation_exception ∷ no_such_element_exception
    ∷ match_error ∷ break_control ∷ non_local_return_control ∷ access_denied_exception
    ∷ file_system_loop_exception ∷ no_such_file_exception ∷ not_directory_exception
    ∷ number_format_exception ∷ java_script_exception ∷ []

holds_all : (Class → Bool) → List Class → Bool
holds_all p [] = true
holds_all p (c ∷ cs) = p c && holds_all p cs

implies : Bool → Bool → Bool
implies a b = not a || b

transitive_at : Class → Class → Class → Bool
transitive_at a b c = implies (is_instance a b) (implies (is_instance b c) (is_instance a c))

all_transitive : Bool
all_transitive =
    holds_all (λ a. holds_all (λ b. holds_all (transitive_at a b) all_classes) all_classes)
      all_classes

checked : all_transitive ≡ true
unfolding all_transitive holds_all transitive_at implies is_instance ancestors has_class all_classes
checked = refl

All-holds_all :
    (p : Class → Bool) (cs : List Class) → holds_all p cs ≡ true → All (λ c. p c ≡ true) cs
unfolding holds_all
All-holds_all p [] h = tt
All-holds_all p (c ∷ cs) h = ground (arith, All-holds_all p cs)

-- Every class is in the list.
at_class : (p : Class → Bool) (c : Class) → All (λ d. p d ≡ true) all_classes → p c ≡ true
unfolding all_classes
at_class p throwable a = a.0
at_class p exception a = a.1.0
at_class p runtime_exception a = a.1.1.0
at_class p error a = a.1.1.1.0
at_class p file_system_exception a = a.1.1.1.1.0
at_class p control_throwable a = a.1.1.1.1.1.0
at_class p no_stack_trace a = a.1.1.1.1.1.1.0
at_class p io_exception a = a.1.1.1.1.1.1.1.0
at_class p coder_malfunction_error a = a.1.1.1.1.1.1.1.1.0
at_class p assertion_error a = a.1.1.1.1.1.1.1.1.1.0
at_class p interrupted_exception a = a.1.1.1.1.1.1.1.1.1.1.0
at_class p not_implemented_error a = a.1.1.1.1.1.1.1.1.1.1.1.0
at_class p closed_file_event_monitor_exception a = a.1.1.1.1.1.1.1.1.1.1.1.1.0
at_class p not_left_exception a = a.1.1.1.1.1.1.1.1.1.1.1.1.1.0
at_class p not_right_exception a = a.1.1.1.1.1.1.1.1.1.1.1.1.1.1.0
at_class p arithmetic_exception a = a.1.1.1.1.1.1.1.1.1.1.1.1.1.1.1.0
at_class p illegal_argument_exception a = a.1.1.1.1.1.1.1.1.1.1.1.1.1.1.1.1.0
at_class p illegal_monitor_state_exception a = a.1.1.1.1.1.1.1.1.1.1.1.1.1.1.1.1.1.0
at_class p illegal_state_exception a = a.1.1.1.1.1.1.1.1.1.1.1.1.1.1.1.1.1.1.0
at_class p index_out_of_bounds_exception a = a.1.1.1.1.1.1.1.1.1.1.1.1.1.1.1.1.1.1.1.0
at_class p null_pointer_exception a = a.1.1.1.1.1.1.1.1.1.1.1.1.1.1.1.1.1.1.1.1.0
at_class p unsupported_operation_exception a = a.1.1.1.1.1.1.1.1.1.1.1.1.1.1.1.1.1.1.1.1.1.0
at_class p no_such_element_exception a = a.1.1.1.1.1.1.1.1.1.1.1.1.1.1.1.1.1.1.1.1.1.1.0
at_class p match_error a = a.1.1.1.1.1.1.1.1.1.1.1.1.1.1.1.1.1.1.1.1.1.1.1.0
at_class p break_control a = a.1.1.1.1.1.1.1.1.1.1.1.1.1.1.1.1.1.1.1.1.1.1.1.1.0
at_class p non_local_return_control a = a.1.1.1.1.1.1.1.1.1.1.1.1.1.1.1.1.1.1.1.1.1.1.1.1.1.0
at_class p access_denied_exception a = a.1.1.1.1.1.1.1.1.1.1.1.1.1.1.1.1.1.1.1.1.1.1.1.1.1.1.0
at_class p file_system_loop_exception a = a.1.1.1.1.1.1.1.1.1.1.1.1.1.1.1.1.1.1.1.1.1.1.1.1.1.1.1.0
at_class p no_such_file_exception a = a.1.1.1.1.1.1.1.1.1.1.1.1.1.1.1.1.1.1.1.1.1.1.1.1.1.1.1.1.0
at_class p not_directory_exception a = a.1.1.1.1.1.1.1.1.1.1.1.1.1.1.1.1.1.1.1.1.1.1.1.1.1.1.1.1.1.0
at_class p number_format_exception a =
    a.1.1.1.1.1.1.1.1.1.1.1.1.1.1.1.1.1.1.1.1.1.1.1.1.1.1.1.1.1.1.0
at_class p java_script_exception a =
    a.1.1.1.1.1.1.1.1.1.1.1.1.1.1.1.1.1.1.1.1.1.1.1.1.1.1.1.1.1.1.1.0

at_every : (p : Class → Bool) → holds_all p all_classes ≡ true → (c : Class) → p c ≡ true
at_every p h c = at_class p c (All-holds_all p all_classes h)

implies-elim : (a b : Bool) → implies a b ≡ true → a ≡ true → b ≡ true
unfolding implies
implies-elim a b h k = ground arith

-- A class that inherits from a second inherits from whatever the second inherits from.
pub is_instance_trans :
    (a b c : Class) → is_instance a b ≡ true → is_instance b c ≡ true → is_instance a c ≡ true
unfolding all_transitive transitive_at
is_instance_trans a b c p q =
    let x =
      at_every (λ d. holds_all (λ e. holds_all (transitive_at d e) all_classes) all_classes) checked
        a in
    let y = at_every (λ e. holds_all (transitive_at a e) all_classes) x b in
    let z = at_every (transitive_at a b) y c in implies-elim _ _ (implies-elim _ _ z p) q

-- The throwables that are no exceptions.
abbrev pub is_fatal : Class → Bool
is_fatal c = is_instance c error || is_instance c no_stack_trace || is_same c throwable

fatal_at : Class → Bool
fatal_at c =
    (implies (is_fatal c) (not (is_instance c exception)))
    && (implies (not (is_fatal c)) (is_instance c exception))

fatal_checked : holds_all fatal_at all_classes ≡ true
unfolding fatal_at holds_all implies is_instance ancestors has_class all_classes
fatal_checked = refl

is_exception-is_fatal : (c : Class) → is_instance c exception ≡ not (is_fatal c)
unfolding fatal_at
is_exception-is_fatal c = ground (
  arith,
  implies-elim (is_fatal c) (not (is_instance c exception)),
  implies-elim (not (is_fatal c)) (is_instance c exception),
  at_every fatal_at fatal_checked c,
)

-- Whether a `catch` clause for exceptions takes what is thrown.
abbrev pub taken : {V : Type 0} → Thrown V → Bool
taken (object c) = not (is_fatal c)
taken (js_exception v) = true
taken (js_value v) = true

-- A `catch (e: Exception)` takes every value that JavaScript code throws, and of the objects those
-- that are no errors, no control throwables and not of `Throwable` itself. A `catch (e: IOException)`
-- takes no more than it. What is thrown again is what was caught, without a wrapper.
pub wrap_thrown-taken :
    {V : Type 0} (t : Thrown V)
    → (is_exception (wrap_thrown t) ≡ taken t)
      × (is_io_exception (wrap_thrown t) ≡ true → is_exception (wrap_thrown t) ≡ true)
      × (unwrap_thrown (wrap_thrown t) ≡ unwrap_thrown t)
unfolding is_exception is_io_exception wrap_thrown unwrap_thrown
wrap_thrown-taken (object c) =
    (is_exception-is_fatal c, λ h. is_instance_trans c io_exception exception h refl, refl)
wrap_thrown-taken (js_exception v) = (refl, λ h. refl, refl)
wrap_thrown-taken (js_value v) = (refl, λ h. refl, refl)

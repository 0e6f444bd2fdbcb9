-- ===== src/Throwables.antt =====
-- The throwables that files/js/npm/files.js throws and catches: the classes, each with the classes
-- and traits that its `$classData` lists, and the tests that the `catch` clauses make. What Node
-- throws is any value, which a `catch` clause wraps first.
pub mod Hierarchy
use file_tree_views.Base.{ℕ, Bool, true, false, not, List, [], ◌∷◌, nat_eq, ◌||◌}

-- The classes, and the abstract ones above them.
pub data Class : Type 0 where
  throwable exception runtime_exception error file_system_exception control_throwable no_stack_trace
        io_exception coder_malfunction_error assertion_error interrupted_exception
        not_implemented_error closed_file_event_monitor_exception not_left_exception
        not_right_exception arithmetic_exception illegal_argument_exception
        illegal_monitor_state_exception illegal_state_exception index_out_of_bounds_exception
        null_pointer_exception unsupported_operation_exception no_such_element_exception match_error
        break_control non_local_return_control access_denied_exception file_system_loop_exception
        no_such_file_exception not_directory_exception number_format_exception
        java_script_exception :
      Class

abbrev rank : Class → ℕ
rank throwable = 0
rank exception = 1
rank runtime_exception = 2
rank error = 3
rank file_system_exception = 4
rank control_throwable = 5
rank no_stack_trace = 6
rank io_exception = 7
rank coder_malfunction_error = 8
rank assertion_error = 9
rank interrupted_exception = 10
rank not_implemented_error = 11
rank closed_file_event_monitor_exception = 12
rank not_left_exception = 13
rank not_right_exception = 14
rank arithmetic_exception = 15
rank illegal_argument_exception = 16
rank illegal_monitor_state_exception = 17
rank illegal_state_exception = 18
rank index_out_of_bounds_exception = 19
rank null_pointer_exception = 20
rank unsupported_operation_exception = 21
rank no_such_element_exception = 22
rank match_error = 23
rank break_control = 24
rank non_local_return_control = 25
rank access_denied_exception = 26
rank file_system_loop_exception = 27
rank no_such_file_exception = 28
rank not_directory_exception = 29
rank number_format_exception = 30
rank java_script_exception = 31

abbrev pub is_same : Class → Class → Bool
is_same a b = nat_eq (rank a) (rank b)

-- The keys of `ancestors` in a `$classData` that stand for classes of throwables.
-- java.io.IOException
abbrev pub io_exception_data : List Class
io_exception_data = io_exception ∷ exception ∷ throwable ∷ []

-- java.nio.charset.CoderMalfunctionError
abbrev pub coder_malfunction_error_data : List Class
coder_malfunction_error_data = coder_malfunction_error ∷ error ∷ throwable ∷ []

-- java.lang.AssertionError
abbrev pub assertion_error_data : List Class
assertion_error_data = assertion_error ∷ error ∷ throwable ∷ []

-- java.lang.InterruptedException
abbrev pub interrupted_exception_data : List Class
interrupted_exception_data = interrupted_exception ∷ exception ∷ throwable ∷ []

-- scala.NotImplementedError
abbrev pub not_implemented_error_data : List Class
not_implemented_error_data = not_implemented_error ∷ error ∷ throwable ∷ []

-- com.swoval.files.apple.ClosedFileEventMonitorException
abbrev pub closed_file_event_monitor_exception_data : List Class
closed_file_event_monitor_exception_data =
    closed_file_event_monitor_exception ∷ io_exception ∷ exception ∷ throwable ∷ []

-- com.swoval.functional.Either$NotLeftException
abbrev pub not_left_exception_data : List Class
not_left_exception_data = not_left_exception ∷ runtime_exception ∷ exception ∷ throwable ∷ []

-- com.swoval.functional.Either$NotRightException
abbrev pub not_right_exception_data : List Class
not_right_exception_data = not_right_exception ∷ runtime_exception ∷ exception ∷ throwable ∷ []

-- java.lang.ArithmeticException
abbrev pub arithmetic_exception_data : List Class
arithmetic_exception_data = arithmetic_exception ∷ runtime_exception ∷ exception ∷ throwable ∷ []

-- java.lang.IllegalArgumentException
abbrev pub illegal_argument_exception_data : List Class
illegal_argument_exception_data =
    illegal_argument_exception ∷ runtime_exception ∷ exception ∷ throwable ∷ []

-- java.lang.IllegalMonitorStateException
abbrev pub illegal_monitor_state_exception_data : List Class
illegal_monitor_state_exception_data =
    illegal_monitor_state_exception ∷ runtime_exception ∷ exception ∷ throwable ∷ []

-- java.lang.IllegalStateException
abbrev pub illegal_state_exception_data : List Class
illegal_state_exception_data =
    illegal_state_exception ∷ runtime_exception ∷ exception ∷ throwable ∷ []

-- java.lang.IndexOutOfBoundsException
abbrev pub index_out_of_bounds_exception_data : List Class
index_out_of_bounds_exception_data =
    index_out_of_bounds_exception ∷ runtime_exception ∷ exception ∷ throwable ∷ []

-- java.lang.NullPointerException
abbrev pub null_pointer_exception_data : List Class
null_pointer_exception_data =
    null_pointer_exception ∷ runtime_exception ∷ exception ∷ throwable ∷ []

-- java.lang.UnsupportedOperationException
abbrev pub unsupported_operation_exception_data : List Class
unsupported_operation_exception_data =
    unsupported_operation_exception ∷ runtime_exception ∷ exception ∷ throwable ∷ []

-- java.util.NoSuchElementException
abbrev pub no_such_element_exception_data : List Class
no_such_element_exception_data =
    no_such_element_exception ∷ runtime_exception ∷ exception ∷ throwable ∷ []

-- scala.MatchError
abbrev pub match_error_data : List Class
match_error_data = match_error ∷ runtime_exception ∷ exception ∷ throwable ∷ []

-- scala.util.control.BreakControl
abbrev pub break_control_data : List Class
break_control_data = break_control ∷ control_throwable ∷ no_stack_trace ∷ throwable ∷ []

-- scala.runtime.NonLocalReturnControl
abbrev pub non_local_return_control_data : List Class
non_local_return_control_data =
    non_local_return_control ∷ control_throwable ∷ no_stack_trace ∷ throwable ∷ []

-- java.nio.file.AccessDeniedException
abbrev pub access_denied_exception_data : List Class
access_denied_exception_data =
    access_denied_exception ∷ file_system_exception ∷ io_exception ∷ exception ∷ throwable ∷ []

-- java.nio.file.FileSystemLoopException
abbrev pub file_system_loop_exception_data : List Class
file_system_loop_exception_data =
    file_system_loop_exception ∷ file_system_exception ∷ io_exception ∷ exception ∷ throwable ∷ []

-- java.nio.file.NoSuchFileException
abbrev pub no_such_file_exception_data : List Class
no_such_file_exception_data =
    no_such_file_exception ∷ file_system_exception ∷ io_exception ∷ exception ∷ throwable ∷ []

-- java.nio.file.NotDirectoryException
abbrev pub not_directory_exception_data : List Class
not_directory_exception_data =
    not_directory_exception ∷ file_system_exception ∷ io_exception ∷ exception ∷ throwable ∷ []

-- java.lang.NumberFormatException
abbrev pub number_format_exception_data : List Class
number_format_exception_data =
    number_format_exception ∷ illegal_argument_exception ∷ runtime_exception ∷ exception ∷ throwable
    ∷ []

-- scala.scalajs.js.JavaScriptException
abbrev pub java_script_exception_data : List Class
java_script_exception_data = java_script_exception ∷ runtime_exception ∷ exception ∷ throwable ∷ []

-- The classes that a class inherits from, itself included.
unfoldable pub ancestors : Class → List Class
ancestors throwable = throwable ∷ []
ancestors exception = exception ∷ throwable ∷ []
ancestors runtime_exception = runtime_exception ∷ exception ∷ throwable ∷ []
ancestors error = error ∷ throwable ∷ []
ancestors file_system_exception = file_system_exception ∷ io_exception ∷ exception ∷ throwable ∷ []
ancestors control_throwable = control_throwable ∷ no_stack_trace ∷ throwable ∷ []
ancestors no_stack_trace = no_stack_trace ∷ throwable ∷ []
ancestors io_exception = io_exception_data
ancestors coder_malfunction_error = coder_malfunction_error_data
ancestors assertion_error = assertion_error_data
ancestors interrupted_exception = interrupted_exception_data
ancestors not_implemented_error = not_implemented_error_data
ancestors closed_file_event_monitor_exception = closed_file_event_monitor_exception_data
ancestors not_left_exception = not_left_exception_data
ancestors not_right_exception = not_right_exception_data
ancestors arithmetic_exception = arithmetic_exception_data
ancestors illegal_argument_exception = illegal_argument_exception_data
ancestors illegal_monitor_state_exception = illegal_monitor_state_exception_data
ancestors illegal_state_exception = illegal_state_exception_data
ancestors index_out_of_bounds_exception = index_out_of_bounds_exception_data
ancestors null_pointer_exception = null_pointer_exception_data
ancestors unsupported_operation_exception = unsupported_operation_exception_data
ancestors no_such_element_exception = no_such_element_exception_data
ancestors match_error = match_error_data
ancestors break_control = break_control_data
ancestors non_local_return_control = non_local_return_control_data
ancestors access_denied_exception = access_denied_exception_data
ancestors file_system_loop_exception = file_system_loop_exception_data
ancestors no_such_file_exception = no_such_file_exception_data
ancestors not_directory_exception = not_directory_exception_data
ancestors number_format_exception = number_format_exception_data
ancestors java_script_exception = java_script_exception_data

unfoldable pub has_class : Class → List Class → Bool
has_class k [] = false
has_class k (c ∷ cs) = is_same k c || has_class k cs

-- `object.$classData.ancestors[key]`
unfoldable pub is_instance : Class → Class → Bool
unfolding ancestors has_class
is_instance c k = has_class k (ancestors c)

-- What is thrown: an object of a class, the wrapper of a value of JavaScript, or such a value.
pub data Thrown (V : Type 0) : Type 0 where
  object : Class → Thrown V
  js_exception : V → Thrown V
  js_value : V → Thrown V

module _ {V : Type 0} where
  -- `wrapJavaScriptException`
  unfoldable pub wrap_thrown : Thrown V → Thrown V
  wrap_thrown (object c) = object c
  wrap_thrown (js_exception v) = js_exception v
  wrap_thrown (js_value v) = js_exception v

  -- `unwrapJavaScriptException`
  unfoldable pub unwrap_thrown : Thrown V → Thrown V
  unwrap_thrown (object c) = object c
  unwrap_thrown (js_exception v) = js_value v
  unwrap_thrown (js_value v) = js_value v

  abbrev pub thrown_is : Class → Thrown V → Bool
  thrown_is k (object c) = is_instance c k
  thrown_is k (js_exception v) = is_instance java_script_exception k
  thrown_is k (js_value v) = false

  -- `catch (e: Exception)`
  unfoldable pub is_exception : Thrown V → Bool
  unfolding is_instance
  is_exception t = thrown_is exception t

  -- `catch (e: IOException)`
  unfoldable pub is_io_exception : Thrown V → Bool
  unfolding is_instance
  is_io_exception t = thrown_is io_exception t

  -- `catch (e: InterruptedException)`
  unfoldable pub is_interrupted : Thrown V → Bool
  unfolding is_instance
  is_interrupted t = thrown_is interrupted_exception t

  -- `NonFatal(e)`, of the fatal classes that the bundle has
  unfoldable pub is_non_fatal : Thrown V → Bool
  unfolding is_instance
  is_non_fatal t = not (thrown_is interrupted_exception t || thrown_is control_throwable t)

  -- `catch (e: NoSuchFileException)`
  unfoldable pub is_no_such_file : Thrown V → Bool
  unfolding is_instance
  is_no_such_file t = thrown_is no_such_file_exception t

-- ===== src/ErrorCode/Core.antt =====
-- server/quazal/src/rmc/result.rs: `CoreError` and its codes.
use scbl.Prelude.{ℕ, List, [], ◌∷◌, arith}
use scbl.ErrorCode.Primitive.{IsNumbered, try_from_primitive}

pub data CoreError : Type 0 where
  unknown not_implemented invalid_pointer operation_aborted exception : CoreError
  access_denied invalid_handle invalid_index out_of_memory invalid_argument : CoreError
  timeout initialization_failure call_initiation_failure registration_error buffer_overflow :
      CoreError
  invalid_lock_state invalid_sequence system_error cancelled : CoreError

unfoldable pub core_code : CoreError → ℕ
core_code unknown = 1
core_code not_implemented = 2
core_code invalid_pointer = 3
core_code operation_aborted = 4
core_code exception = 5
core_code access_denied = 6
core_code invalid_handle = 7
core_code invalid_index = 8
core_code out_of_memory = 9
core_code invalid_argument = 10
core_code timeout = 11
core_code initialization_failure = 12
core_code call_initiation_failure = 13
core_code registration_error = 14
core_code buffer_overflow = 15
core_code invalid_lock_state = 16
core_code invalid_sequence = 17
core_code system_error = 18
core_code cancelled = 19

abbrev pub core_errors : List CoreError
core_errors =
    unknown ∷ not_implemented ∷ invalid_pointer ∷ operation_aborted ∷ exception ∷ access_denied
    ∷ invalid_handle ∷ invalid_index ∷ out_of_memory ∷ invalid_argument ∷ timeout
    ∷ initialization_failure ∷ call_initiation_failure ∷ registration_error ∷ buffer_overflow
    ∷ invalid_lock_state ∷ invalid_sequence ∷ system_error ∷ cancelled ∷ []

pub core_code-IsNumbered : IsNumbered core_code core_errors
unfolding core_code try_from_primitive
core_code-IsNumbered = record { word = λ e. ground arith; back = λ e. ground arith }

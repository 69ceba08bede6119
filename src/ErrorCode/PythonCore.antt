-- ===== src/ErrorCode/PythonCore.antt =====
-- server/quazal/src/rmc/result.rs: `PythonCoreError` and its codes.
use scbl.Prelude.{ℕ, List, [], ◌∷◌, arith}
use scbl.ErrorCode.Primitive.{IsNumbered, try_from_primitive}

pub data PythonCoreError : Type 0 where
  exception type_error index_error invalid_reference call_failure : PythonCoreError
  memory_error key_error operation_error conversion_error validation_error : PythonCoreError

unfoldable pub python_core_code : PythonCoreError → ℕ
python_core_code exception = 1
python_core_code type_error = 2
python_core_code index_error = 3
python_core_code invalid_reference = 4
python_core_code call_failure = 5
python_core_code memory_error = 6
python_core_code key_error = 7
python_core_code operation_error = 8
python_core_code conversion_error = 9
python_core_code validation_error = 10

abbrev pub python_core_errors : List PythonCoreError
python_core_errors =
    exception ∷ type_error ∷ index_error ∷ invalid_reference ∷ call_failure ∷ memory_error
    ∷ key_error ∷ operation_error ∷ conversion_error ∷ validation_error ∷ []

pub python_core_code-IsNumbered : IsNumbered python_core_code python_core_errors
unfolding python_core_code try_from_primitive
python_core_code-IsNumbered = record { word = λ e. ground arith; back = λ e. ground arith }

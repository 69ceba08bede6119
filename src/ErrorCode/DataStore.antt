-- ===== src/ErrorCode/DataStore.antt =====
-- server/quazal/src/rmc/result.rs: `DataStoreError` and its codes.
use scbl.Prelude.{ℕ, List, [], ◌∷◌, arith}
use scbl.ErrorCode.Primitive.{IsNumbered, try_from_primitive}

pub data DataStoreError : Type 0 where
  unknown invalid_argument permission_denied not_found already_locked : DataStoreError
  under_reviewing expired invalid_check_token system_file_error over_capacity : DataStoreError
  operation_not_allowed invalid_password value_not_equal : DataStoreError

unfoldable pub data_store_code : DataStoreError → ℕ
data_store_code unknown = 1
data_store_code invalid_argument = 2
data_store_code permission_denied = 3
data_store_code not_found = 4
data_store_code already_locked = 5
data_store_code under_reviewing = 6
data_store_code expired = 7
data_store_code invalid_check_token = 8
data_store_code system_file_error = 9
data_store_code over_capacity = 10
data_store_code operation_not_allowed = 11
data_store_code invalid_password = 12
data_store_code value_not_equal = 13

abbrev pub data_store_errors : List DataStoreError
data_store_errors =
    unknown ∷ invalid_argument ∷ permission_denied ∷ not_found ∷ already_locked ∷ under_reviewing
    ∷ expired ∷ invalid_check_token ∷ system_file_error ∷ over_capacity ∷ operation_not_allowed
    ∷ invalid_password ∷ value_not_equal ∷ []

pub data_store_code-IsNumbered : IsNumbered data_store_code data_store_errors
unfolding data_store_code try_from_primitive
data_store_code-IsNumbered = record { word = λ e. ground arith; back = λ e. ground arith }

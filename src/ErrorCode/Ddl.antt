-- ===== src/ErrorCode/Ddl.antt =====
-- server/quazal/src/rmc/result.rs: `DDLError` and its codes.
use scbl.Prelude.{ℕ, List, [], ◌∷◌, arith}
use scbl.ErrorCode.Primitive.{IsNumbered, try_from_primitive}

pub data DdlError : Type 0 where
  invalid_signature incorrect_version : DdlError

unfoldable pub ddl_code : DdlError → ℕ
ddl_code invalid_signature = 1
ddl_code incorrect_version = 2

abbrev pub ddl_errors : List DdlError
ddl_errors = invalid_signature ∷ incorrect_version ∷ []

pub ddl_code-IsNumbered : IsNumbered ddl_code ddl_errors
unfolding ddl_code try_from_primitive
ddl_code-IsNumbered = record { word = λ e. ground arith; back = λ e. ground arith }

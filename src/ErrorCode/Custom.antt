-- ===== src/ErrorCode/Custom.antt =====
-- server/quazal/src/rmc/result.rs: `CustomError` and its codes.
use scbl.Prelude.{ℕ, List, [], ◌∷◌, arith}
use scbl.ErrorCode.Primitive.{IsNumbered, try_from_primitive}

pub data CustomError : Type 0 where
  unknown : CustomError

unfoldable pub custom_code : CustomError → ℕ
custom_code unknown = 1

abbrev pub custom_errors : List CustomError
custom_errors = unknown ∷ []

pub custom_code-IsNumbered : IsNumbered custom_code custom_errors
unfolding custom_code try_from_primitive
custom_code-IsNumbered = record { word = λ e. ground arith; back = λ e. ground arith }

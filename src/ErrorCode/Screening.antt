-- ===== src/ErrorCode/Screening.antt =====
-- server/quazal/src/rmc/result.rs: `ScreeningError` and its codes.
use scbl.Prelude.{ℕ, List, [], ◌∷◌, arith}
use scbl.ErrorCode.Primitive.{IsNumbered, try_from_primitive}

pub data ScreeningError : Type 0 where
  unknown invalid_argument not_found : ScreeningError

unfoldable pub screening_code : ScreeningError → ℕ
screening_code unknown = 1
screening_code invalid_argument = 2
screening_code not_found = 3

abbrev pub screening_errors : List ScreeningError
screening_errors = unknown ∷ invalid_argument ∷ not_found ∷ []

pub screening_code-IsNumbered : IsNumbered screening_code screening_errors
unfolding screening_code try_from_primitive
screening_code-IsNumbered = record { word = λ e. ground arith; back = λ e. ground arith }

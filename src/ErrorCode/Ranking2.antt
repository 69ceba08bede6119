-- ===== src/ErrorCode/Ranking2.antt =====
-- server/quazal/src/rmc/result.rs: `Ranking2Error` and its codes.
use scbl.Prelude.{ℕ, List, [], ◌∷◌, arith}
use scbl.ErrorCode.Primitive.{IsNumbered, try_from_primitive}

pub data Ranking2Error : Type 0 where
  unknown invalid_argument invalid_score : Ranking2Error

unfoldable pub ranking2_code : Ranking2Error → ℕ
ranking2_code unknown = 1
ranking2_code invalid_argument = 2
ranking2_code invalid_score = 3

abbrev pub ranking2_errors : List Ranking2Error
ranking2_errors = unknown ∷ invalid_argument ∷ invalid_score ∷ []

pub ranking2_code-IsNumbered : IsNumbered ranking2_code ranking2_errors
unfolding ranking2_code try_from_primitive
ranking2_code-IsNumbered = record { word = λ e. ground arith; back = λ e. ground arith }

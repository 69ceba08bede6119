-- ===== src/ErrorCode/Ranking.antt =====
-- server/quazal/src/rmc/result.rs: `RankingError` and its codes.
use scbl.Prelude.{ℕ, List, [], ◌∷◌, arith}
use scbl.ErrorCode.Primitive.{IsNumbered, try_from_primitive}

pub data RankingError : Type 0 where
  not_initialized invalid_argument registration_error not_found invalid_score : RankingError
  invalid_data_size permission_denied unknown not_implemented : RankingError

unfoldable pub ranking_code : RankingError → ℕ
ranking_code not_initialized = 1
ranking_code invalid_argument = 2
ranking_code registration_error = 3
ranking_code not_found = 5
ranking_code invalid_score = 6
ranking_code invalid_data_size = 7
ranking_code permission_denied = 9
ranking_code unknown = 10
ranking_code not_implemented = 11

abbrev pub ranking_errors : List RankingError
ranking_errors =
    not_initialized ∷ invalid_argument ∷ registration_error ∷ not_found ∷ invalid_score
    ∷ invalid_data_size ∷ permission_denied ∷ unknown ∷ not_implemented ∷ []

pub ranking_code-IsNumbered : IsNumbered ranking_code ranking_errors
unfolding ranking_code try_from_primitive
ranking_code-IsNumbered = record { word = λ e. ground arith; back = λ e. ground arith }

-- ===== src/ErrorCode/MatchmakeReferee.antt =====
-- server/quazal/src/rmc/result.rs: `MatchmakeRefereeError` and its codes.
use scbl.Prelude.{ℕ, List, [], ◌∷◌, arith}
use scbl.ErrorCode.Primitive.{IsNumbered, try_from_primitive}

pub data MatchmakeRefereeError : Type 0 where
  unknown invalid_argument already_exists not_participated_gathering not_participated_round :
      MatchmakeRefereeError
  stats_not_found round_not_found round_arbitrated round_not_arbitrated : MatchmakeRefereeError

unfoldable pub matchmake_referee_code : MatchmakeRefereeError → ℕ
matchmake_referee_code unknown = 1
matchmake_referee_code invalid_argument = 2
matchmake_referee_code already_exists = 3
matchmake_referee_code not_participated_gathering = 4
matchmake_referee_code not_participated_round = 5
matchmake_referee_code stats_not_found = 6
matchmake_referee_code round_not_found = 7
matchmake_referee_code round_arbitrated = 8
matchmake_referee_code round_not_arbitrated = 9

abbrev pub matchmake_referee_errors : List MatchmakeRefereeError
matchmake_referee_errors =
    unknown ∷ invalid_argument ∷ already_exists ∷ not_participated_gathering
    ∷ not_participated_round ∷ stats_not_found ∷ round_not_found ∷ round_arbitrated
    ∷ round_not_arbitrated ∷ []

pub matchmake_referee_code-IsNumbered : IsNumbered matchmake_referee_code matchmake_referee_errors
unfolding matchmake_referee_code try_from_primitive
matchmake_referee_code-IsNumbered = record { word = λ e. ground arith; back = λ e. ground arith }

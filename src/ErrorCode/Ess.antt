-- ===== src/ErrorCode/Ess.antt =====
-- server/quazal/src/rmc/result.rs: `EssError` and its codes.
use scbl.Prelude.{ℕ, List, [], ◌∷◌, arith}
use scbl.ErrorCode.Primitive.{IsNumbered, try_from_primitive}

pub data EssError : Type 0 where
  unknown game_session_error game_session_maintenance : EssError

unfoldable pub ess_code : EssError → ℕ
ess_code unknown = 1
ess_code game_session_error = 2
ess_code game_session_maintenance = 3

abbrev pub ess_errors : List EssError
ess_errors = unknown ∷ game_session_error ∷ game_session_maintenance ∷ []

pub ess_code-IsNumbered : IsNumbered ess_code ess_errors
unfolding ess_code try_from_primitive
ess_code-IsNumbered = record { word = λ e. ground arith; back = λ e. ground arith }

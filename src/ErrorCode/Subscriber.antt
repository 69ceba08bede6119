-- ===== src/ErrorCode/Subscriber.antt =====
-- server/quazal/src/rmc/result.rs: `SubscriberError` and its codes.
use scbl.Prelude.{ℕ, List, [], ◌∷◌, arith}
use scbl.ErrorCode.Primitive.{IsNumbered, try_from_primitive}

pub data SubscriberError : Type 0 where
  unknown invalid_argument over_limit permission_denied : SubscriberError

unfoldable pub subscriber_code : SubscriberError → ℕ
subscriber_code unknown = 1
subscriber_code invalid_argument = 2
subscriber_code over_limit = 3
subscriber_code permission_denied = 4

abbrev pub subscriber_errors : List SubscriberError
subscriber_errors = unknown ∷ invalid_argument ∷ over_limit ∷ permission_denied ∷ []

pub subscriber_code-IsNumbered : IsNumbered subscriber_code subscriber_errors
unfolding subscriber_code try_from_primitive
subscriber_code-IsNumbered = record { word = λ e. ground arith; back = λ e. ground arith }

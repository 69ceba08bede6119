-- ===== src/ErrorCode/ServiceItem.antt =====
-- server/quazal/src/rmc/result.rs: `ServiceItemError` and its codes.
use scbl.Prelude.{ℕ, List, [], ◌∷◌, arith}
use scbl.ErrorCode.Primitive.{IsNumbered, try_from_primitive}

pub data ServiceItemError : Type 0 where
  unknown invalid_argument e_shop_unknown_http_error e_shop_response_parse_error not_owned :
      ServiceItemError
  invalid_limitation_type consumption_right_shortage : ServiceItemError

unfoldable pub service_item_code : ServiceItemError → ℕ
service_item_code unknown = 1
service_item_code invalid_argument = 2
service_item_code e_shop_unknown_http_error = 3
service_item_code e_shop_response_parse_error = 4
service_item_code not_owned = 5
service_item_code invalid_limitation_type = 6
service_item_code consumption_right_shortage = 7

abbrev pub service_item_errors : List ServiceItemError
service_item_errors =
    unknown ∷ invalid_argument ∷ e_shop_unknown_http_error ∷ e_shop_response_parse_error ∷ not_owned
    ∷ invalid_limitation_type ∷ consumption_right_shortage ∷ []

pub service_item_code-IsNumbered : IsNumbered service_item_code service_item_errors
unfolding service_item_code try_from_primitive
service_item_code-IsNumbered = record { word = λ e. ground arith; back = λ e. ground arith }

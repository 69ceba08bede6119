-- ===== src/ErrorCode/Authentication.antt =====
-- server/quazal/src/rmc/result.rs: `AuthenticationError` and its codes.
use scbl.Prelude.{ℕ, List, [], ◌∷◌, arith}
use scbl.ErrorCode.Primitive.{IsNumbered, try_from_primitive}

pub data AuthenticationError : Type 0 where
  nas_authenticate_error token_parse_error http_connection_error http_dns_error
        http_get_proxy_setting :
      AuthenticationError
  token_expired validation_failed invalid_param principal_id_unmatched move_count_unmatch :
      AuthenticationError
  under_maintenance unsupported_version server_version_is_old unknown client_version_is_old :
      AuthenticationError
  account_library_error service_no_longer_available unknown_application application_version_is_old
        out_of_service :
      AuthenticationError
  network_service_license_required network_service_license_system_error
        network_service_license_error3 network_service_license_error4 :
      AuthenticationError

unfoldable pub authentication_code : AuthenticationError → ℕ
authentication_code nas_authenticate_error = 1
authentication_code token_parse_error = 2
authentication_code http_connection_error = 3
authentication_code http_dns_error = 4
authentication_code http_get_proxy_setting = 5
authentication_code token_expired = 6
authentication_code validation_failed = 7
authentication_code invalid_param = 8
authentication_code principal_id_unmatched = 9
authentication_code move_count_unmatch = 10
authentication_code under_maintenance = 11
authentication_code unsupported_version = 12
authentication_code server_version_is_old = 13
authentication_code unknown = 14
authentication_code client_version_is_old = 15
authentication_code account_library_error = 16
authentication_code service_no_longer_available = 17
authentication_code unknown_application = 18
authentication_code application_version_is_old = 19
authentication_code out_of_service = 20
authentication_code network_service_license_required = 21
authentication_code network_service_license_system_error = 22
authentication_code network_service_license_error3 = 23
authentication_code network_service_license_error4 = 24

abbrev pub authentication_errors : List AuthenticationError
authentication_errors =
    nas_authenticate_error ∷ token_parse_error ∷ http_connection_error ∷ http_dns_error
    ∷ http_get_proxy_setting ∷ token_expired ∷ validation_failed ∷ invalid_param
    ∷ principal_id_unmatched ∷ move_count_unmatch ∷ under_maintenance ∷ unsupported_version
    ∷ server_version_is_old ∷ unknown ∷ client_version_is_old ∷ account_library_error
    ∷ service_no_longer_available ∷ unknown_application ∷ application_version_is_old
    ∷ out_of_service ∷ network_service_license_required ∷ network_service_license_system_error
    ∷ network_service_license_error3 ∷ network_service_license_error4 ∷ []

pub authentication_code-IsNumbered : IsNumbered authentication_code authentication_errors
unfolding authentication_code try_from_primitive
authentication_code-IsNumbered = record { word = λ e. ground arith; back = λ e. ground arith }

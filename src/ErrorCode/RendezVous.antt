-- ===== src/ErrorCode/RendezVous.antt =====
-- server/quazal/src/rmc/result.rs: `RendezVousError` and its codes.
use scbl.Prelude.{ℕ, List, [], ◌∷◌, arith}
use scbl.ErrorCode.Primitive.{IsNumbered, try_from_primitive}

pub data RendezVousError : Type 0 where
  connection_failure not_authenticated invalid_username invalid_password username_already_exists :
      RendezVousError
  account_disabled account_expired concurrent_login_denied encryption_failure invalid_pid :
      RendezVousError
  max_connections_reached invalid_gid invalid_control_script_id
        invalid_operation_in_live_environment duplicate_entry :
      RendezVousError
  control_script_failure class_not_found session_void ddl_mismatch invalid_configuration :
      RendezVousError
  session_full invalid_gathering_password without_participation_period
        persistent_gathering_creation_max persistent_gathering_participation_max :
      RendezVousError
  denied_by_participants participant_in_black_list game_server_maintenance operation_postpone
        out_of_rating_range :
      RendezVousError
  connection_disconnected invalid_operation not_participated_gathering
        matchmake_session_user_password_unmatch matchmake_session_system_password_unmatch :
      RendezVousError
  user_is_offline already_participated_gathering permission_denied not_friend session_closed :
      RendezVousError
  database_temporarily_unavailable invalid_unique_id matchmaking_withdrawn limit_exceeded
        account_temporarily_disabled :
      RendezVousError
  partially_service_closed connection_disconnected_for_concurrent_login : RendezVousError

unfoldable pub rendez_vous_code : RendezVousError → ℕ
rendez_vous_code connection_failure = 1
rendez_vous_code not_authenticated = 2
rendez_vous_code invalid_username = 100
rendez_vous_code invalid_password = 101
rendez_vous_code username_already_exists = 102
rendez_vous_code account_disabled = 103
rendez_vous_code account_expired = 104
rendez_vous_code concurrent_login_denied = 105
rendez_vous_code encryption_failure = 106
rendez_vous_code invalid_pid = 107
rendez_vous_code max_connections_reached = 108
rendez_vous_code invalid_gid = 109
rendez_vous_code invalid_control_script_id = 110
rendez_vous_code invalid_operation_in_live_environment = 111
rendez_vous_code duplicate_entry = 112
rendez_vous_code control_script_failure = 113
rendez_vous_code class_not_found = 114
rendez_vous_code session_void = 115
rendez_vous_code ddl_mismatch = 117
rendez_vous_code invalid_configuration = 118
rendez_vous_code session_full = 200
rendez_vous_code invalid_gathering_password = 201
rendez_vous_code without_participation_period = 202
rendez_vous_code persistent_gathering_creation_max = 203
rendez_vous_code persistent_gathering_participation_max = 204
rendez_vous_code denied_by_participants = 205
rendez_vous_code participant_in_black_list = 206
rendez_vous_code game_server_maintenance = 207
rendez_vous_code operation_postpone = 208
rendez_vous_code out_of_rating_range = 209
rendez_vous_code connection_disconnected = 210
rendez_vous_code invalid_operation = 211
rendez_vous_code not_participated_gathering = 212
rendez_vous_code matchmake_session_user_password_unmatch = 213
rendez_vous_code matchmake_session_system_password_unmatch = 214
rendez_vous_code user_is_offline = 215
rendez_vous_code already_participated_gathering = 216
rendez_vous_code permission_denied = 217
rendez_vous_code not_friend = 218
rendez_vous_code session_closed = 219
rendez_vous_code database_temporarily_unavailable = 220
rendez_vous_code invalid_unique_id = 221
rendez_vous_code matchmaking_withdrawn = 222
rendez_vous_code limit_exceeded = 223
rendez_vous_code account_temporarily_disabled = 224
rendez_vous_code partially_service_closed = 225
rendez_vous_code connection_disconnected_for_concurrent_login = 226

abbrev pub rendez_vous_errors : List RendezVousError
rendez_vous_errors =
    connection_failure ∷ not_authenticated ∷ invalid_username ∷ invalid_password
    ∷ username_already_exists ∷ account_disabled ∷ account_expired ∷ concurrent_login_denied
    ∷ encryption_failure ∷ invalid_pid ∷ max_connections_reached ∷ invalid_gid
    ∷ invalid_control_script_id ∷ invalid_operation_in_live_environment ∷ duplicate_entry
    ∷ control_script_failure ∷ class_not_found ∷ session_void ∷ ddl_mismatch ∷ invalid_configuration
    ∷ session_full ∷ invalid_gathering_password ∷ without_participation_period
    ∷ persistent_gathering_creation_max ∷ persistent_gathering_participation_max
    ∷ denied_by_participants ∷ participant_in_black_list ∷ game_server_maintenance
    ∷ operation_postpone ∷ out_of_rating_range ∷ connection_disconnected ∷ invalid_operation
    ∷ not_participated_gathering ∷ matchmake_session_user_password_unmatch
    ∷ matchmake_session_system_password_unmatch ∷ user_is_offline ∷ already_participated_gathering
    ∷ permission_denied ∷ not_friend ∷ session_closed ∷ database_temporarily_unavailable
    ∷ invalid_unique_id ∷ matchmaking_withdrawn ∷ limit_exceeded ∷ account_temporarily_disabled
    ∷ partially_service_closed ∷ connection_disconnected_for_concurrent_login ∷ []

pub rendez_vous_code-IsNumbered : IsNumbered rendez_vous_code rendez_vous_errors
unfolding rendez_vous_code try_from_primitive
rendez_vous_code-IsNumbered = record { word = λ e. ground arith; back = λ e. ground arith }

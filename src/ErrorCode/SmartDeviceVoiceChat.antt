-- ===== src/ErrorCode/SmartDeviceVoiceChat.antt =====
-- server/quazal/src/rmc/result.rs: `SmartDeviceVoiceChatError` and its codes.
use scbl.Prelude.{ℕ, List, [], ◌∷◌, arith}
use scbl.ErrorCode.Primitive.{IsNumbered, try_from_primitive}

pub data SmartDeviceVoiceChatError : Type 0 where
  unknown invalid_argument invalid_response invalid_access_token unauthorized :
      SmartDeviceVoiceChatError
  access_error user_not_found room_not_found room_not_activated application_not_supported :
      SmartDeviceVoiceChatError
  internal_server_error service_unavailable unexpected_error under_maintenance
        service_no_longer_available :
      SmartDeviceVoiceChatError
  account_temporarily_disabled permission_denied network_service_license_required
        account_library_error game_mode_not_found :
      SmartDeviceVoiceChatError

unfoldable pub smart_device_voice_chat_code : SmartDeviceVoiceChatError → ℕ
smart_device_voice_chat_code unknown = 1
smart_device_voice_chat_code invalid_argument = 2
smart_device_voice_chat_code invalid_response = 3
smart_device_voice_chat_code invalid_access_token = 4
smart_device_voice_chat_code unauthorized = 5
smart_device_voice_chat_code access_error = 6
smart_device_voice_chat_code user_not_found = 7
smart_device_voice_chat_code room_not_found = 8
smart_device_voice_chat_code room_not_activated = 9
smart_device_voice_chat_code application_not_supported = 10
smart_device_voice_chat_code internal_server_error = 11
smart_device_voice_chat_code service_unavailable = 12
smart_device_voice_chat_code unexpected_error = 13
smart_device_voice_chat_code under_maintenance = 14
smart_device_voice_chat_code service_no_longer_available = 15
smart_device_voice_chat_code account_temporarily_disabled = 16
smart_device_voice_chat_code permission_denied = 17
smart_device_voice_chat_code network_service_license_required = 18
smart_device_voice_chat_code account_library_error = 19
smart_device_voice_chat_code game_mode_not_found = 20

abbrev pub smart_device_voice_chat_errors : List SmartDeviceVoiceChatError
smart_device_voice_chat_errors =
    unknown ∷ invalid_argument ∷ invalid_response ∷ invalid_access_token ∷ unauthorized
    ∷ access_error ∷ user_not_found ∷ room_not_found ∷ room_not_activated
    ∷ application_not_supported ∷ internal_server_error ∷ service_unavailable ∷ unexpected_error
    ∷ under_maintenance ∷ service_no_longer_available ∷ account_temporarily_disabled
    ∷ permission_denied ∷ network_service_license_required ∷ account_library_error
    ∷ game_mode_not_found ∷ []

pub smart_device_voice_chat_code-IsNumbered :
    IsNumbered smart_device_voice_chat_code smart_device_voice_chat_errors
unfolding smart_device_voice_chat_code try_from_primitive
smart_device_voice_chat_code-IsNumbered = record {
  word = λ e. ground arith;
  back = λ e. ground arith;
}

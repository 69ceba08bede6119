-- ===== src/ErrorCode.antt =====
-- server/quazal/src/rmc/result.rs: `Error`, the Quazal errors by category, and their 32-bit codes. What
-- num_enum derives for the enums is in Primitive.
pub mod Primitive
pub mod Core
pub mod Ddl
pub mod RendezVous
pub mod PythonCore
pub mod Transport
pub mod DoCore
pub mod Fpd
pub mod Ranking
pub mod Authentication
pub mod DataStore
pub mod ServiceItem
pub mod MatchmakeReferee
pub mod Subscriber
pub mod Ranking2
pub mod SmartDeviceVoiceChat
pub mod Screening
pub mod Custom
pub mod Ess
pub mod Arms
pub mod RoundTrip
pub mod Range
mod Tests
use scbl.Prelude.{
  ℕ, ◌+◌, ◌*◌, ◌/◌, ◌%◌, ◌^◌, ◌==◌, List, [], ◌∷◌, Option, none, some, Outcome, ok, err, ok_or,
  bit_or, bit_and, bit_xor, if◌then◌else◌,
}
use scbl.Prelude.Maps.{lookup}
use mathlib.Core.Option
use scbl.ErrorCode.Primitive.{try_from_primitive}
use scbl.ErrorCode.Core.{CoreError, core_code, core_errors}
use scbl.ErrorCode.Ddl.{DdlError, ddl_code, ddl_errors}
use scbl.ErrorCode.RendezVous.{RendezVousError, rendez_vous_code, rendez_vous_errors}
use scbl.ErrorCode.PythonCore.{PythonCoreError, python_core_code, python_core_errors}
use scbl.ErrorCode.Transport.{TransportError, transport_code, transport_errors}
use scbl.ErrorCode.DoCore.{DoCoreError, do_core_code, do_core_errors}
use scbl.ErrorCode.Fpd.{FpdError, fpd_code, fpd_errors}
use scbl.ErrorCode.Ranking.{RankingError, ranking_code, ranking_errors}
use scbl.ErrorCode.Authentication.{AuthenticationError, authentication_code, authentication_errors}
use scbl.ErrorCode.DataStore.{DataStoreError, data_store_code, data_store_errors}
use scbl.ErrorCode.ServiceItem.{ServiceItemError, service_item_code, service_item_errors}
use scbl.ErrorCode.MatchmakeReferee.{
  MatchmakeRefereeError, matchmake_referee_code, matchmake_referee_errors,
}
use scbl.ErrorCode.Subscriber.{SubscriberError, subscriber_code, subscriber_errors}
use scbl.ErrorCode.Ranking2.{Ranking2Error, ranking2_code, ranking2_errors}
use scbl.ErrorCode.SmartDeviceVoiceChat.{
  SmartDeviceVoiceChatError, smart_device_voice_chat_code, smart_device_voice_chat_errors,
}
use scbl.ErrorCode.Screening.{ScreeningError, screening_code, screening_errors}
use scbl.ErrorCode.Custom.{CustomError, custom_code, custom_errors}
use scbl.ErrorCode.Ess.{EssError, ess_code, ess_errors}

pub data Error : Type 0 where
  core : CoreError → Error
  ddl : DdlError → Error
  rendez_vous : RendezVousError → Error
  python_core : PythonCoreError → Error
  transport : TransportError → Error
  do_core : DoCoreError → Error
  fpd : FpdError → Error
  ranking : RankingError → Error
  authentication : AuthenticationError → Error
  data_store : DataStoreError → Error
  service_item : ServiceItemError → Error
  matchmake_referee : MatchmakeRefereeError → Error
  subscriber : SubscriberError → Error
  ranking2 : Ranking2Error → Error
  smart_device_voice_chat : SmartDeviceVoiceChatError → Error
  screening : ScreeningError → Error
  custom : CustomError → Error
  ess : EssError → Error

-- The category, the code and the top bit joined by `|`.
unfoldable pub quazal_code : ℕ → ℕ → ℕ
quazal_code category code = bit_or (bit_or (category * 2 ^ 16) code) (2 ^ 31)

-- `u32::from`.
unfoldable pub error_to_u32 : Error → ℕ
unfolding quazal_code
error_to_u32 (core inner) = quazal_code 1 (core_code inner)
error_to_u32 (ddl inner) = quazal_code 2 (ddl_code inner)
error_to_u32 (rendez_vous inner) = quazal_code 3 (rendez_vous_code inner)
error_to_u32 (python_core inner) = quazal_code 4 (python_core_code inner)
error_to_u32 (transport inner) = quazal_code 5 (transport_code inner)
error_to_u32 (do_core inner) = quazal_code 6 (do_core_code inner)
error_to_u32 (fpd inner) = quazal_code 0x65 (fpd_code inner)
error_to_u32 (ranking inner) = quazal_code 0x67 (ranking_code inner)
error_to_u32 (authentication inner) = quazal_code 0x68 (authentication_code inner)
error_to_u32 (data_store inner) = quazal_code 0x69 (data_store_code inner)
error_to_u32 (service_item inner) = quazal_code 0x6c (service_item_code inner)
error_to_u32 (matchmake_referee inner) = quazal_code 0x6f (matchmake_referee_code inner)
error_to_u32 (subscriber inner) = quazal_code 0x70 (subscriber_code inner)
error_to_u32 (ranking2 inner) = quazal_code 0x71 (ranking2_code inner)
error_to_u32 (smart_device_voice_chat inner) = quazal_code 0x72 (smart_device_voice_chat_code inner)
error_to_u32 (screening inner) = quazal_code 0x73 (screening_code inner)
error_to_u32 (custom inner) = quazal_code 0x74 (custom_code inner)
error_to_u32 (ess inner) = quazal_code 0x75 (ess_code inner)

-- One arm of `try_from`: the low 16 bits are the code.
abbrev pub read_as : {A : Type 0} → (A → Error) → (A → ℕ) → List A → ℕ → Option Error
read_as wrap code variants v = Option.map wrap (try_from_primitive code variants (v % 2 ^ 16))

-- The arms by their category, in the order of the source.
unfoldable pub readers : List (ℕ × (ℕ → Option Error))
unfolding try_from_primitive
readers =
    (1, read_as core core_code core_errors)
    ∷ (2, read_as ddl ddl_code ddl_errors)
    ∷ (3, read_as rendez_vous rendez_vous_code rendez_vous_errors)
    ∷ (4, read_as python_core python_core_code python_core_errors)
    ∷ (5, read_as transport transport_code transport_errors)
    ∷ (6, read_as do_core do_core_code do_core_errors)
    ∷ (0x65, read_as fpd fpd_code fpd_errors)
    ∷ (0x67, read_as ranking ranking_code ranking_errors)
    ∷ (0x68, read_as authentication authentication_code authentication_errors)
    ∷ (0x69, read_as data_store data_store_code data_store_errors)
    ∷ (0x6c, read_as service_item service_item_code service_item_errors)
    ∷ (0x6f, read_as matchmake_referee matchmake_referee_code matchmake_referee_errors)
    ∷ (0x70, read_as subscriber subscriber_code subscriber_errors)
    ∷ (0x71, read_as ranking2 ranking2_code ranking2_errors)
    ∷ (
      0x72,
      read_as smart_device_voice_chat smart_device_voice_chat_code smart_device_voice_chat_errors,
    )
    ∷ (0x73, read_as screening screening_code screening_errors)
    ∷ (0x74, read_as custom custom_code custom_errors)
    ∷ (0x75, read_as ess ess_code ess_errors)
    ∷ []

abbrev pub run_reader : Option (ℕ → Option Error) → ℕ → Option Error
run_reader none v = none
run_reader (some read) v = read v

-- `Error::try_from`, with the value itself as the error.
unfoldable pub error_try_from : ℕ → Outcome ℕ Error
error_try_from value =
    if bit_and value (2 ^ 31) == 0
    then err value
    else (let code = bit_xor value (2 ^ 31) in
        ok_or (run_reader (lookup (code / 2 ^ 16) readers) code) value)

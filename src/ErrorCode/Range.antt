-- ===== src/ErrorCode/Range.antt =====
-- The range of the codes.
use scbl.Prelude.{ℕ, ◌^◌, ◌<◌, ◌≤◌, arith}
use scbl.ErrorCode.{
  Error, core, ddl, rendez_vous, python_core, transport, do_core, fpd, ranking, authentication,
  data_store, service_item, matchmake_referee, subscriber, ranking2, smart_device_voice_chat,
  screening, custom, ess, quazal_code, error_to_u32,
}
use scbl.ErrorCode.Arms.{quazal_code_sum}
use scbl.ErrorCode.Core.{core_code-IsNumbered}
use scbl.ErrorCode.Ddl.{ddl_code-IsNumbered}
use scbl.ErrorCode.RendezVous.{rendez_vous_code-IsNumbered}
use scbl.ErrorCode.PythonCore.{python_core_code-IsNumbered}
use scbl.ErrorCode.Transport.{transport_code-IsNumbered}
use scbl.ErrorCode.DoCore.{do_core_code-IsNumbered}
use scbl.ErrorCode.Fpd.{fpd_code-IsNumbered}
use scbl.ErrorCode.Ranking.{ranking_code-IsNumbered}
use scbl.ErrorCode.Authentication.{authentication_code-IsNumbered}
use scbl.ErrorCode.DataStore.{data_store_code-IsNumbered}
use scbl.ErrorCode.ServiceItem.{service_item_code-IsNumbered}
use scbl.ErrorCode.MatchmakeReferee.{matchmake_referee_code-IsNumbered}
use scbl.ErrorCode.Subscriber.{subscriber_code-IsNumbered}
use scbl.ErrorCode.Ranking2.{ranking2_code-IsNumbered}
use scbl.ErrorCode.SmartDeviceVoiceChat.{smart_device_voice_chat_code-IsNumbered}
use scbl.ErrorCode.Screening.{screening_code-IsNumbered}
use scbl.ErrorCode.Custom.{custom_code-IsNumbered}
use scbl.ErrorCode.Ess.{ess_code-IsNumbered}

-- A 32-bit word with the top bit set.
abbrev pub IsQuazal : ℕ → Type 0
IsQuazal code = (2 ^ 31 ≤ code) × (code < 2 ^ 32)

quazal_code-IsQuazal : (k c : ℕ) → k < 2 ^ 15 → c < 2 ^ 16 → IsQuazal (quazal_code k c)
quazal_code-IsQuazal k c h j =
    (omega (arith, quazal_code_sum k c h j), omega (arith, quazal_code_sum k c h j, h, j))

pub error_to_u32-IsQuazal : (e : Error) → IsQuazal (error_to_u32 e)
unfolding error_to_u32
error_to_u32-IsQuazal (core e) =
    quazal_code-IsQuazal 1 _ (omega arith) (core_code-IsNumbered.word e)
error_to_u32-IsQuazal (ddl e) = quazal_code-IsQuazal 2 _ (omega arith) (ddl_code-IsNumbered.word e)
error_to_u32-IsQuazal (rendez_vous e) =
    quazal_code-IsQuazal 3 _ (omega arith) (rendez_vous_code-IsNumbered.word e)
error_to_u32-IsQuazal (python_core e) =
    quazal_code-IsQuazal 4 _ (omega arith) (python_core_code-IsNumbered.word e)
error_to_u32-IsQuazal (transport e) =
    quazal_code-IsQuazal 5 _ (omega arith) (transport_code-IsNumbered.word e)
error_to_u32-IsQuazal (do_core e) =
    quazal_code-IsQuazal 6 _ (omega arith) (do_core_code-IsNumbered.word e)
error_to_u32-IsQuazal (fpd e) =
    quazal_code-IsQuazal 0x65 _ (omega arith) (fpd_code-IsNumbered.word e)
error_to_u32-IsQuazal (ranking e) =
    quazal_code-IsQuazal 0x67 _ (omega arith) (ranking_code-IsNumbered.word e)
error_to_u32-IsQuazal (authentication e) =
    quazal_code-IsQuazal 0x68 _ (omega arith) (authentication_code-IsNumbered.word e)
error_to_u32-IsQuazal (data_store e) =
    quazal_code-IsQuazal 0x69 _ (omega arith) (data_store_code-IsNumbered.word e)
error_to_u32-IsQuazal (service_item e) =
    quazal_code-IsQuazal 0x6c _ (omega arith) (service_item_code-IsNumbered.word e)
error_to_u32-IsQuazal (matchmake_referee e) =
    quazal_code-IsQuazal 0x6f _ (omega arith) (matchmake_referee_code-IsNumbered.word e)
error_to_u32-IsQuazal (subscriber e) =
    quazal_code-IsQuazal 0x70 _ (omega arith) (subscriber_code-IsNumbered.word e)
error_to_u32-IsQuazal (ranking2 e) =
    quazal_code-IsQuazal 0x71 _ (omega arith) (ranking2_code-IsNumbered.word e)
error_to_u32-IsQuazal (smart_device_voice_chat e) =
    quazal_code-IsQuazal 0x72 _ (omega arith) (smart_device_voice_chat_code-IsNumbered.word e)
error_to_u32-IsQuazal (screening e) =
    quazal_code-IsQuazal 0x73 _ (omega arith) (screening_code-IsNumbered.word e)
error_to_u32-IsQuazal (custom e) =
    quazal_code-IsQuazal 0x74 _ (omega arith) (custom_code-IsNumbered.word e)
error_to_u32-IsQuazal (ess e) =
    quazal_code-IsQuazal 0x75 _ (omega arith) (ess_code-IsNumbered.word e)

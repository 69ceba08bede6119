-- ===== src/ErrorCode/RoundTrip.antt =====
-- A Quazal error is read back from its code, and a code that is read is the code of what it is read as.
use scbl.Prelude.{
  ℕ, ◌+◌, ◌/◌, ◌^◌, ◌<◌, ◌==◌, ◌≡◌, refl, sym, ap, ◌∙◌, List, [], ◌∷◌, Option, some, ok,
  ok_or-eq-ok, bit_and, true, Bool-cases, ltb, ◌-◌, ==_iff, All, inl, inr, arith,
}
use scbl.Prelude.Maps.{lookup}
use scbl.Prelude.Shifts.{below-IsClear, bit_and-clear}
use scbl.ErrorCode.{
  Error, core, ddl, rendez_vous, python_core, transport, do_core, fpd, ranking, authentication,
  data_store, service_item, matchmake_referee, subscriber, ranking2, smart_device_voice_chat,
  screening, custom, ess, error_to_u32, readers, run_reader, error_try_from,
}
use scbl.ErrorCode.Core.{core_code, core_errors, core_code-IsNumbered}
use scbl.ErrorCode.Ddl.{ddl_code, ddl_errors, ddl_code-IsNumbered}
use scbl.ErrorCode.RendezVous.{rendez_vous_code, rendez_vous_errors, rendez_vous_code-IsNumbered}
use scbl.ErrorCode.PythonCore.{python_core_code, python_core_errors, python_core_code-IsNumbered}
use scbl.ErrorCode.Transport.{transport_code, transport_errors, transport_code-IsNumbered}
use scbl.ErrorCode.DoCore.{do_core_code, do_core_errors, do_core_code-IsNumbered}
use scbl.ErrorCode.Fpd.{fpd_code, fpd_errors, fpd_code-IsNumbered}
use scbl.ErrorCode.Ranking.{ranking_code, ranking_errors, ranking_code-IsNumbered}
use scbl.ErrorCode.Authentication.{
  authentication_code, authentication_errors, authentication_code-IsNumbered,
}
use scbl.ErrorCode.DataStore.{data_store_code, data_store_errors, data_store_code-IsNumbered}
use scbl.ErrorCode.ServiceItem.{
  service_item_code, service_item_errors, service_item_code-IsNumbered,
}
use scbl.ErrorCode.MatchmakeReferee.{
  matchmake_referee_code, matchmake_referee_errors, matchmake_referee_code-IsNumbered,
}
use scbl.ErrorCode.Subscriber.{subscriber_code, subscriber_errors, subscriber_code-IsNumbered}
use scbl.ErrorCode.Ranking2.{ranking2_code, ranking2_errors, ranking2_code-IsNumbered}
use scbl.ErrorCode.SmartDeviceVoiceChat.{
  smart_device_voice_chat_code, smart_device_voice_chat_errors,
  smart_device_voice_chat_code-IsNumbered,
}
use scbl.ErrorCode.Screening.{screening_code, screening_errors, screening_code-IsNumbered}
use scbl.ErrorCode.Custom.{custom_code, custom_errors, custom_code-IsNumbered}
use scbl.ErrorCode.Ess.{ess_code, ess_errors, ess_code-IsNumbered}
use scbl.ErrorCode.Arms.{try_from_top, read_back, read_code}

-- Every error is read back from its code.
pub error_try_from-error_to_u32 : (e : Error) → error_try_from (error_to_u32 e) ≡ ok e
unfolding error_to_u32 readers lookup
error_try_from-error_to_u32 (core e) =
    read_back core core_code core_errors core_code-IsNumbered 1 e (omega arith) refl
error_try_from-error_to_u32 (ddl e) =
    read_back ddl ddl_code ddl_errors ddl_code-IsNumbered 2 e (omega arith) refl
error_try_from-error_to_u32 (rendez_vous e) =
    read_back rendez_vous rendez_vous_code rendez_vous_errors rendez_vous_code-IsNumbered 3 e
      (omega arith) refl
error_try_from-error_to_u32 (python_core e) =
    read_back python_core python_core_code python_core_errors python_core_code-IsNumbered 4 e
      (omega arith) refl
error_try_from-error_to_u32 (transport e) =
    read_back transport transport_code transport_errors transport_code-IsNumbered 5 e (omega arith)
      refl
error_try_from-error_to_u32 (do_core e) =
    read_back do_core do_core_code do_core_errors do_core_code-IsNumbered 6 e (omega arith) refl
error_try_from-error_to_u32 (fpd e) =
    read_back fpd fpd_code fpd_errors fpd_code-IsNumbered 0x65 e (omega arith) refl
error_try_from-error_to_u32 (ranking e) =
    read_back ranking ranking_code ranking_errors ranking_code-IsNumbered 0x67 e (omega arith) refl
error_try_from-error_to_u32 (authentication e) =
    read_back authentication authentication_code authentication_errors
      authentication_code-IsNumbered 0x68 e (omega arith) refl
error_try_from-error_to_u32 (data_store e) =
    read_back data_store data_store_code data_store_errors data_store_code-IsNumbered 0x69 e
      (omega arith) refl
error_try_from-error_to_u32 (service_item e) =
    read_back service_item service_item_code service_item_errors service_item_code-IsNumbered 0x6c e
      (omega arith) refl
error_try_from-error_to_u32 (matchmake_referee e) =
    read_back matchmake_referee matchmake_referee_code matchmake_referee_errors
      matchmake_referee_code-IsNumbered 0x6f e (omega arith) refl
error_try_from-error_to_u32 (subscriber e) =
    read_back subscriber subscriber_code subscriber_errors subscriber_code-IsNumbered 0x70 e
      (omega arith) refl
error_try_from-error_to_u32 (ranking2 e) =
    read_back ranking2 ranking2_code ranking2_errors ranking2_code-IsNumbered 0x71 e (omega arith)
      refl
error_try_from-error_to_u32 (smart_device_voice_chat e) =
    read_back smart_device_voice_chat smart_device_voice_chat_code smart_device_voice_chat_errors
      smart_device_voice_chat_code-IsNumbered 0x72 e (omega arith) refl
error_try_from-error_to_u32 (screening e) =
    read_back screening screening_code screening_errors screening_code-IsNumbered 0x73 e
      (omega arith) refl
error_try_from-error_to_u32 (custom e) =
    read_back custom custom_code custom_errors custom_code-IsNumbered 0x74 e (omega arith) refl
error_try_from-error_to_u32 (ess e) =
    read_back ess ess_code ess_errors ess_code-IsNumbered 0x75 e (omega arith) refl

-- What an arm of a category reads has the code that it was read from.
abbrev Reads : ℕ × (ℕ → Option Error) → Type 0
Reads (k, read) =
    (x : ℕ) (e : Error) → x / 2 ^ 16 ≡ k → read x ≡ some e → error_to_u32 e ≡ x + 2 ^ 31

All-read : All Reads readers
unfolding error_to_u32 readers lookup
All-read = (
  λ x e. read_code core core_code core_errors core_code-IsNumbered 1 x e (omega arith) (λ a. refl),
  (
    λ x e. read_code ddl ddl_code ddl_errors ddl_code-IsNumbered 2 x e (omega arith) (λ a. refl),
    (
      λ x e.
          read_code rendez_vous rendez_vous_code rendez_vous_errors rendez_vous_code-IsNumbered 3 x
            e (omega arith) (λ a. refl),
      (
        λ x e.
            read_code python_core python_core_code python_core_errors python_core_code-IsNumbered 4
              x e (omega arith) (λ a. refl),
        (
          λ x e.
              read_code transport transport_code transport_errors transport_code-IsNumbered 5 x e
                (omega arith) (λ a. refl),
          (
            λ x e.
                read_code do_core do_core_code do_core_errors do_core_code-IsNumbered 6 x e
                  (omega arith) (λ a. refl),
            (
              λ x e.
                  read_code fpd fpd_code fpd_errors fpd_code-IsNumbered 0x65 x e (omega arith)
                    (λ a. refl),
              (
                λ x e.
                    read_code ranking ranking_code ranking_errors ranking_code-IsNumbered 0x67 x e
                      (omega arith) (λ a. refl),
                (
                  λ x e.
                      read_code authentication authentication_code authentication_errors
                        authentication_code-IsNumbered 0x68 x e (omega arith) (λ a. refl),
                  (
                    λ x e.
                        read_code data_store data_store_code data_store_errors
                          data_store_code-IsNumbered 0x69 x e (omega arith) (λ a. refl),
                    (
                      λ x e.
                          read_code service_item service_item_code service_item_errors
                            service_item_code-IsNumbered 0x6c x e (omega arith) (λ a. refl),
                      (
                        λ x e.
                            read_code matchmake_referee matchmake_referee_code
                              matchmake_referee_errors matchmake_referee_code-IsNumbered 0x6f x e
                              (omega arith) (λ a. refl),
                        (
                          λ x e.
                              read_code subscriber subscriber_code subscriber_errors
                                subscriber_code-IsNumbered 0x70 x e (omega arith) (λ a. refl),
                          (
                            λ x e.
                                read_code ranking2 ranking2_code ranking2_errors
                                  ranking2_code-IsNumbered 0x71 x e (omega arith) (λ a. refl),
                            (
                              λ x e.
                                  read_code smart_device_voice_chat smart_device_voice_chat_code
                                    smart_device_voice_chat_errors
                                    smart_device_voice_chat_code-IsNumbered 0x72 x e (omega arith)
                                    (λ a. refl),
                              (
                                λ x e.
                                    read_code screening screening_code screening_errors
                                      screening_code-IsNumbered 0x73 x e (omega arith) (λ a. refl),
                                (
                                  λ x e.
                                      read_code custom custom_code custom_errors
                                        custom_code-IsNumbered 0x74 x e (omega arith) (λ a. refl),
                                  (
                                    λ x e.
                                        read_code ess ess_code ess_errors ess_code-IsNumbered 0x75 x
                                          e (omega arith) (λ a. refl),
                                    tt,
                                  ),
                                ),
                              ),
                            ),
                          ),
                        ),
                      ),
                    ),
                  ),
                ),
              ),
            ),
          ),
        ),
      ),
    ),
  ),
)

found-Reads :
    (arms : List (ℕ × (ℕ → Option Error))) (x : ℕ) (e : Error)
    → All Reads arms
    → run_reader (lookup (x / 2 ^ 16) arms) x ≡ some e
    → error_to_u32 e ≡ x + 2 ^ 31
unfolding lookup
found-Reads [] x e h found = cc
found-Reads ((k, read) ∷ arms) x e h found = elim (Bool-cases (k == x / 2 ^ 16)) [
  | inl hit ↦ h.0 x e (sym ((==_iff k (x / 2 ^ 16)).0 hit)) (rw hit at found)
  | inr miss ↦ found-Reads arms x e h.1 (rw miss at found)
]

-- A 32-bit number that is read as an error is the code of that error.
pub error_to_u32-error_try_from :
    (value : ℕ) (e : Error) → value < 2 ^ 32 → error_try_from value ≡ ok e → error_to_u32 e ≡ value
unfolding error_try_from
error_to_u32-error_try_from value e h read = elim (Bool-cases (ltb value (2 ^ 31))) [
  | inl small ↦
      let below : value < 2 ^ 31 = ground arith in
      let clear = bit_and-clear 31 value (below-IsClear 31 value below) in
      let none_set : (bit_and value (2 ^ 31) == 0) ≡ true = rw clear refl in
      cc (rw none_set at read)
  | inr large ↦
      let same : (value - 2 ^ 31) + 2 ^ 31 ≡ value = ground (arith, h, large) in
      let found =
        ok_or-eq-ok _ _ e (
          sym (try_from_top (value - 2 ^ 31) (omega (arith, h))) ∙ ap error_try_from same ∙ read) in
      found-Reads readers (value - 2 ^ 31) e All-read found ∙ same
]

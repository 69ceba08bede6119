-- ===== src/ErrorCode/DoCore.antt =====
-- server/quazal/src/rmc/result.rs: `DOCoreError` and its codes.
use scbl.Prelude.{ℕ, List, [], ◌∷◌, arith}
use scbl.ErrorCode.Primitive.{IsNumbered, try_from_primitive}

pub data DoCoreError : Type 0 where
  station_not_reached target_station_disconnect local_station_leaving object_not_found
        invalid_role :
      DoCoreError
  call_timeout rmc_dispatch_failed migration_in_progress no_authority no_target_station_specified :
      DoCoreError
  join_failed join_denied connectivity_test_failed unknown unfreed_references : DoCoreError
  job_termination_failed invalid_state fault_recovery_fatal fault_recovery_job_process_failed
        station_inconsitency :
      DoCoreError
  abnormal_master_state version_mismatch : DoCoreError

unfoldable pub do_core_code : DoCoreError → ℕ
do_core_code station_not_reached = 1
do_core_code target_station_disconnect = 2
do_core_code local_station_leaving = 3
do_core_code object_not_found = 4
do_core_code invalid_role = 5
do_core_code call_timeout = 6
do_core_code rmc_dispatch_failed = 7
do_core_code migration_in_progress = 8
do_core_code no_authority = 9
do_core_code no_target_station_specified = 10
do_core_code join_failed = 11
do_core_code join_denied = 12
do_core_code connectivity_test_failed = 13
do_core_code unknown = 14
do_core_code unfreed_references = 15
do_core_code job_termination_failed = 16
do_core_code invalid_state = 17
do_core_code fault_recovery_fatal = 18
do_core_code fault_recovery_job_process_failed = 19
do_core_code station_inconsitency = 20
do_core_code abnormal_master_state = 21
do_core_code version_mismatch = 22

abbrev pub do_core_errors : List DoCoreError
do_core_errors =
    station_not_reached ∷ target_station_disconnect ∷ local_station_leaving ∷ object_not_found
    ∷ invalid_role ∷ call_timeout ∷ rmc_dispatch_failed ∷ migration_in_progress ∷ no_authority
    ∷ no_target_station_specified ∷ join_failed ∷ join_denied ∷ connectivity_test_failed ∷ unknown
    ∷ unfreed_references ∷ job_termination_failed ∷ invalid_state ∷ fault_recovery_fatal
    ∷ fault_recovery_job_process_failed ∷ station_inconsitency ∷ abnormal_master_state
    ∷ version_mismatch ∷ []

pub do_core_code-IsNumbered : IsNumbered do_core_code do_core_errors
unfolding do_core_code try_from_primitive
do_core_code-IsNumbered = record { word = λ e. ground arith; back = λ e. ground arith }

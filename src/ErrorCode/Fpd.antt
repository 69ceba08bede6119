-- ===== src/ErrorCode/Fpd.antt =====
-- server/quazal/src/rmc/result.rs: `FPDError` and its codes.
use scbl.Prelude.{ℕ, List, [], ◌∷◌, arith}
use scbl.ErrorCode.Primitive.{IsNumbered, try_from_primitive}

pub data FpdError : Type 0 where
  not_initialized already_initialized not_connected connected initialization_failure : FpdError
  out_of_memory rmc_failed invalid_argument invalid_local_account_id invalid_principal_id : FpdError
  invalid_local_friend_code local_account_not_exists local_account_not_loaded
        local_account_already_loaded friend_already_exists :
      FpdError
  friend_not_exists friend_num_max not_friend file_io p2_p_internet_prohibited : FpdError
  unknown invalid_state add_friend_prohibited invalid_account blacklisted_by_me : FpdError
  friend_already_added my_friend_list_limit_exceed request_limit_exceed invalid_message_id
        message_is_not_mine :
      FpdError
  message_is_not_for_me friend_request_blocked not_in_my_friend_list friend_listed_by_me
        not_in_my_blacklist :
      FpdError
  incompatible_account block_setting_change_not_allowed size_limit_exceeded operation_not_allowed
        not_network_account :
      FpdError
  notification_not_found preference_not_initialized friend_request_not_allowed : FpdError

unfoldable pub fpd_code : FpdError → ℕ
fpd_code not_initialized = 0
fpd_code already_initialized = 1
fpd_code not_connected = 2
fpd_code connected = 3
fpd_code initialization_failure = 4
fpd_code out_of_memory = 5
fpd_code rmc_failed = 6
fpd_code invalid_argument = 7
fpd_code invalid_local_account_id = 8
fpd_code invalid_principal_id = 9
fpd_code invalid_local_friend_code = 10
fpd_code local_account_not_exists = 11
fpd_code local_account_not_loaded = 12
fpd_code local_account_already_loaded = 13
fpd_code friend_already_exists = 14
fpd_code friend_not_exists = 15
fpd_code friend_num_max = 16
fpd_code not_friend = 17
fpd_code file_io = 18
fpd_code p2_p_internet_prohibited = 19
fpd_code unknown = 20
fpd_code invalid_state = 21
fpd_code add_friend_prohibited = 23
fpd_code invalid_account = 25
fpd_code blacklisted_by_me = 26
fpd_code friend_already_added = 28
fpd_code my_friend_list_limit_exceed = 29
fpd_code request_limit_exceed = 30
fpd_code invalid_message_id = 31
fpd_code message_is_not_mine = 32
fpd_code message_is_not_for_me = 33
fpd_code friend_request_blocked = 34
fpd_code not_in_my_friend_list = 35
fpd_code friend_listed_by_me = 36
fpd_code not_in_my_blacklist = 37
fpd_code incompatible_account = 38
fpd_code block_setting_change_not_allowed = 39
fpd_code size_limit_exceeded = 40
fpd_code operation_not_allowed = 41
fpd_code not_network_account = 42
fpd_code notification_not_found = 43
fpd_code preference_not_initialized = 44
fpd_code friend_request_not_allowed = 45

abbrev pub fpd_errors : List FpdError
fpd_errors =
    not_initialized ∷ already_initialized ∷ not_connected ∷ connected ∷ initialization_failure
    ∷ out_of_memory ∷ rmc_failed ∷ invalid_argument ∷ invalid_local_account_id
    ∷ invalid_principal_id ∷ invalid_local_friend_code ∷ local_account_not_exists
    ∷ local_account_not_loaded ∷ local_account_already_loaded ∷ friend_already_exists
    ∷ friend_not_exists ∷ friend_num_max ∷ not_friend ∷ file_io ∷ p2_p_internet_prohibited ∷ unknown
    ∷ invalid_state ∷ add_friend_prohibited ∷ invalid_account ∷ blacklisted_by_me
    ∷ friend_already_added ∷ my_friend_list_limit_exceed ∷ request_limit_exceed ∷ invalid_message_id
    ∷ message_is_not_mine ∷ message_is_not_for_me ∷ friend_request_blocked ∷ not_in_my_friend_list
    ∷ friend_listed_by_me ∷ not_in_my_blacklist ∷ incompatible_account
    ∷ block_setting_change_not_allowed ∷ size_limit_exceeded ∷ operation_not_allowed
    ∷ not_network_account ∷ notification_not_found ∷ preference_not_initialized
    ∷ friend_request_not_allowed ∷ []

pub fpd_code-IsNumbered : IsNumbered fpd_code fpd_errors
unfolding fpd_code try_from_primitive
fpd_code-IsNumbered = record { word = λ e. ground arith; back = λ e. ground arith }

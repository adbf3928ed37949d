-- ===== src/App/FuncCode.antt =====
-- Function codes, internal/app/funccode.go. A code is an octet.
use go_dnp.Common.{ℕ, Bool, true, false, not, ◌||◌, leb, ◌==◌, List, [], ◌∷◌, ◌≡◌, arith}

abbrev pub func_confirm : ℕ
func_confirm = 0

abbrev pub func_read : ℕ
func_read = 1

abbrev pub func_write : ℕ
func_write = 2

abbrev pub func_select : ℕ
func_select = 3

abbrev pub func_operate : ℕ
func_operate = 4

abbrev pub func_direct_operate : ℕ
func_direct_operate = 5

abbrev pub func_direct_operate_nr : ℕ
func_direct_operate_nr = 6

abbrev pub func_immed_freeze : ℕ
func_immed_freeze = 7

abbrev pub func_immed_freeze_nr : ℕ
func_immed_freeze_nr = 8

abbrev pub func_freeze_clear : ℕ
func_freeze_clear = 9

abbrev pub func_freeze_clear_nr : ℕ
func_freeze_clear_nr = 10

abbrev pub func_freeze_at_time : ℕ
func_freeze_at_time = 11

abbrev pub func_freeze_at_time_nr : ℕ
func_freeze_at_time_nr = 12

abbrev pub func_cold_restart : ℕ
func_cold_restart = 13

abbrev pub func_warm_restart : ℕ
func_warm_restart = 14

abbrev pub func_initialize_data : ℕ
func_initialize_data = 15

abbrev pub func_initialize_appl : ℕ
func_initialize_appl = 16

abbrev pub func_start_appl : ℕ
func_start_appl = 17

abbrev pub func_stop_appl : ℕ
func_stop_appl = 18

abbrev pub func_save_config : ℕ
func_save_config = 19

abbrev pub func_enable_unsolicited : ℕ
func_enable_unsolicited = 20

abbrev pub func_disable_unsolicited : ℕ
func_disable_unsolicited = 21

abbrev pub func_assign_class : ℕ
func_assign_class = 22

abbrev pub func_delay_measure : ℕ
func_delay_measure = 23

abbrev pub func_record_current_time : ℕ
func_record_current_time = 24

abbrev pub func_open_file : ℕ
func_open_file = 25

abbrev pub func_close_file : ℕ
func_close_file = 26

abbrev pub func_delete_file : ℕ
func_delete_file = 27

abbrev pub func_get_file_info : ℕ
func_get_file_info = 28

abbrev pub func_authenticate_file : ℕ
func_authenticate_file = 29

abbrev pub func_abort_file : ℕ
func_abort_file = 30

abbrev pub func_activate_config : ℕ
func_activate_config = 31

abbrev pub func_auth_request : ℕ
func_auth_request = 32

abbrev pub func_auth_request_no_ack : ℕ
func_auth_request_no_ack = 33

abbrev pub func_response : ℕ
func_response = 129

abbrev pub func_unsolicited_response : ℕ
func_unsolicited_response = 130

abbrev pub func_auth_response : ℕ
func_auth_response = 131

-- A switch on the code, as the list of its cases.
abbrev pub is_one_of : ℕ → List ℕ → Bool
is_one_of f [] = false
is_one_of f (g ∷ gs) = (f == g) || is_one_of f gs

unfoldable pub is_response : ℕ → Bool
is_response f =
    (f == func_response) || (f == func_unsolicited_response) || (f == func_auth_response)

-- `funcNames` has an entry for each of the constants.
unfoldable pub is_known : ℕ → Bool
unfolding is_response
is_known f = leb f func_auth_request_no_ack || is_response f

unfoldable pub no_reply : ℕ → Bool
no_reply f = is_one_of f (
    func_direct_operate_nr ∷ func_immed_freeze_nr ∷ func_freeze_clear_nr ∷ func_freeze_at_time_nr
    ∷ func_auth_request_no_ack ∷ [])

unfoldable pub carries_object_data : ℕ → Bool
carries_object_data f = not (
    is_one_of f (
      func_read ∷ func_immed_freeze ∷ func_immed_freeze_nr ∷ func_freeze_clear
      ∷ func_freeze_clear_nr ∷ func_enable_unsolicited ∷ func_disable_unsolicited
      ∷ func_assign_class ∷ func_confirm ∷ func_cold_restart ∷ func_warm_restart
      ∷ func_delay_measure ∷ func_record_current_time ∷ func_initialize_data ∷ func_save_config
      ∷ func_get_file_info ∷ func_delete_file ∷ []))

unfoldable pub requires_objects : ℕ → Bool
requires_objects f = is_one_of f (
    func_read ∷ func_write ∷ func_select ∷ func_operate ∷ func_direct_operate
    ∷ func_direct_operate_nr ∷ func_freeze_at_time ∷ func_freeze_at_time_nr
    ∷ func_enable_unsolicited ∷ func_disable_unsolicited ∷ func_assign_class ∷ [])

unfoldable pub is_control : ℕ → Bool
is_control f =
    is_one_of f (func_select ∷ func_operate ∷ func_direct_operate ∷ func_direct_operate_nr ∷ [])

-- Every code that operates outputs is known, is not a response, needs its objects, and is followed by
-- their data.
pub is_control-kind :
    (f : ℕ)
    → is_control f ≡ true
    → (is_known f ≡ true)
      × (is_response f ≡ false)
      × (requires_objects f ≡ true)
      × (carries_object_data f ≡ true)
unfolding is_control is_known is_response requires_objects carries_object_data
is_control-kind f e = (ground arith, ground arith, ground arith, ground arith)

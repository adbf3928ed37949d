-- ===== src/App/Iin.antt =====
-- Internal indications, internal/app/iin.go: a uint16, IIN1 its low octet. `&^` is written as `&` with
-- the complement.
use go_dnp.Common.{ℕ, ◌*◌, ◌/◌, ◌%◌, bit_and, bit_or, bit_xor, Bool, ◌==◌, ◌!=◌}

abbrev pub iin_broadcast : ℕ
iin_broadcast = 0x0001

abbrev pub iin_class1_events : ℕ
iin_class1_events = 0x0002

abbrev pub iin_class2_events : ℕ
iin_class2_events = 0x0004

abbrev pub iin_class3_events : ℕ
iin_class3_events = 0x0008

abbrev pub iin_need_time : ℕ
iin_need_time = 0x0010

abbrev pub iin_device_restart : ℕ
iin_device_restart = 0x0080

abbrev pub iin_no_func_code_support : ℕ
iin_no_func_code_support = 0x0100

abbrev pub iin_object_unknown : ℕ
iin_object_unknown = 0x0200

abbrev pub iin_parameter_error : ℕ
iin_parameter_error = 0x0400

abbrev pub iin_event_buffer_overflow : ℕ
iin_event_buffer_overflow = 0x0800

abbrev pub iin_already_executing : ℕ
iin_already_executing = 0x1000

abbrev pub iin_config_corrupt : ℕ
iin_config_corrupt = 0x2000

abbrev pub event_class_mask : ℕ
event_class_mask = bit_or (bit_or iin_class1_events iin_class2_events) iin_class3_events

abbrev pub error_mask : ℕ
error_mask =
    bit_or
      (bit_or (bit_or (bit_or iin_no_func_code_support iin_object_unknown) iin_parameter_error)
        iin_already_executing)
      iin_config_corrupt

abbrev pub request_error_mask : ℕ
request_error_mask =
    bit_or (bit_or (bit_or iin_no_func_code_support iin_object_unknown) iin_parameter_error)
      iin_already_executing

unfoldable pub parse_iin : ℕ → ℕ → ℕ
parse_iin iin1 iin2 = bit_or iin1 (iin2 * 256 % 65536)

unfoldable pub octets : ℕ → ℕ × ℕ
octets i = (i % 256, i / 256 % 256)

unfoldable pub has : ℕ → ℕ → Bool
has i mask = bit_and i mask == mask

unfoldable pub has_any : ℕ → ℕ → Bool
has_any i mask = bit_and i mask != 0

unfoldable pub set : ℕ → ℕ → ℕ
set i mask = bit_or i mask

unfoldable pub clear : ℕ → ℕ → ℕ
clear i mask = bit_and i (bit_xor mask 0xffff)

unfoldable pub has_events : ℕ → Bool
unfolding has_any
has_events i = has_any i event_class_mask

unfoldable pub has_error : ℕ → Bool
unfolding has_any
has_error i = has_any i error_mask

unfoldable pub event_classes : ℕ → ℕ
event_classes i = bit_and i event_class_mask

-- ===== src/Outstation/Command.antt =====
-- Controls, outstation/command.go, with the control code of types.go: selection, SELECT, OPERATE and DIRECT_OPERATE. What
-- the session calls is an argument: the command handler, the points, the clock, the response and the
-- codecs of the object library. Times are numbers.
pub mod Execute
pub mod SelectOperate
pub mod Refusal
pub mod Selecting
mod Tests
use go_dnp.Common.{
  ℕ, zero, suc, ◌+◌, ◌-◌, ◌*◌, ◌%◌, bit_and, Bool, true, false, not, ◌&&◌, ◌||◌, ltb, ◌==◌, ◌!=◌,
  if◌then◌else◌, Option, none, some, List, [], ◌∷◌, ◌++◌, length, get_or, take, drop,
}
use go_dnp.App.FuncCode.{func_select, func_operate, func_direct_operate_nr, no_reply}
use go_dnp.App.Header.{Header, size}
use go_dnp.App.Iin
use go_dnp.App.Iin.{iin_object_unknown, iin_parameter_error}
use go_dnp.App.Qualifier.{index_prefix, prefix_octets, is_index}
use go_dnp.App.Object.{ObjectHeader, append_object_header}
use go_dnp.App.Fragment.{Fragment}
use go_dnp.Stack.{Received}

pub data OperateType : Type 0 where
  operate_direct operate_direct_no_ack operate_selected : OperateType

abbrev pub command_success : ℕ
command_success = 0

abbrev pub command_timeout : ℕ
command_timeout = 1

abbrev pub command_no_select : ℕ
command_no_select = 2

abbrev pub command_not_supported : ℕ
command_not_supported = 4

abbrev pub command_too_many_ops : ℕ
command_too_many_ops = 8

unfoldable pub is_ok : ℕ → Bool
is_ok status = status == command_success

-- The control code.
unfoldable pub op_type : ℕ → ℕ
op_type c = bit_and c 0x0f

unfoldable pub is_trip : ℕ → Bool
is_trip c = bit_and c 0xc0 == 0x80

unfoldable pub is_close : ℕ → Bool
is_close c = bit_and c 0xc0 == 0x40

pub record Selection : Type 0 where
  pub active : Bool
  pub objects : List ℕ
  pub seq : ℕ
  pub expires : ℕ

unfoldable pub clear : Selection → Selection
clear s = record s { active = false; objects = [] }

-- Go's bytes.Equal.
unfoldable pub bytes_equal : List ℕ → List ℕ → Bool
bytes_equal [] [] = true
bytes_equal [] (b ∷ bs) = false
bytes_equal (a ∷ rest) [] = false
bytes_equal (a ∷ rest) (b ∷ bs) = (a == b) && bytes_equal rest bs

unfoldable pub next_seq : ℕ → ℕ
next_seq s = (s + 1) % 16

unfoldable pub matches : Selection → List ℕ → ℕ → ℕ → ℕ
matches s objects seq now =
    if not s.active
    then command_no_select
    else if ltb s.expires now
    then command_timeout
    else if seq != next_seq s.seq
    then command_no_select
    else if not (bytes_equal s.objects objects)
    then command_no_select
    else command_success

pub record Outcome : Type 0 where
  pub index : ℕ
  pub status : ℕ

unfoldable pub read_prefix : List ℕ → ℕ → ℕ
read_prefix buf width =
    if width == 1
    then get_or buf 0 0
    else if width == 2
    then get_or buf 0 0 + get_or buf 1 0 * 256
    else if width == 4
    then get_or buf 0 0 + get_or buf 1 0 * 256 + get_or buf 2 0 * 65536 + get_or buf 3 0 * 16777216
    else 0

-- What the object library says of a group and variation: whether it is a command, and its size in octets, if
-- that is fixed.
pub record Descriptor : Type 0 where
  pub is_command : Bool
  pub size_octets : Option ℕ

pub data PointType : Type 0 where
  binary_output_status analog_output_status : PointType

-- What the session calls: `W` is the world that these change, `C` a control block, `V` an analog value
-- and `E` an error. `respond` is given the indications and returns them.
pub record Device (W C V E : Type 0) : Type 0 where
  pub now : W → ℕ
  pub lookup : ℕ → ℕ → Option Descriptor
  pub parse_crob : List ℕ → C
  pub code : C → ℕ
  pub parse_value : ℕ → List ℕ → V
  pub select_crob : W → ℕ → C → W × ℕ
  pub operate_crob : W → ℕ → C → OperateType → W × ℕ
  pub select_analog : W → ℕ → V → ℕ → W × ℕ
  pub operate_analog : W → ℕ → V → ℕ → OperateType → W × ℕ
  pub has_output : Option (W → PointType → ℕ → Bool)
  pub output_count : W → PointType → ℕ
  pub raise_binary : W → ℕ → Bool → ℕ → ℕ → W
  pub raise_analog : W → ℕ → V → ℕ → ℕ → ℕ → W
  pub respond : ℕ → W → Received → Header → List ℕ → (ℕ × W) × Option E

-- The part of the session that commands use.
pub record Session : Type 0 where
  pub sel : Selection
  pub iin : ℕ
  pub max_controls : ℕ
  pub select_timeout : ℕ

-- The octets with the last one replaced.
unfoldable pub set_last : List ℕ → ℕ → List ℕ
set_last [] v = []
set_last (a ∷ []) v = v ∷ []
set_last (a ∷ b ∷ xs) v = a ∷ set_last (b ∷ xs) v

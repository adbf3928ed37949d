-- ===== src/App/Fragment.antt =====
-- Application fragments, internal/app/fragment.go: parsing and the builder. A result that comes with an
-- error is a pair; the offset that the error message adds is left out.
pub mod WriteBack
pub mod Build
mod Tests
use go_dnp.Common.{
  ℕ, zero, suc, ◌+◌, ◌-◌, ◌%◌, Bool, true, false, not, ◌||◌, ltb, leb, ◌==◌, if◌then◌else◌, Option,
  none, some, List, [], ◌∷◌, ◌++◌, length, get_or, drop, foldl, Result, ok, err,
}
use go_dnp.App.Errors.{
  Error, truncated, fragment_too_large, wrong_direction, header_already_written, header_not_written,
}
use go_dnp.App.FuncCode.{carries_object_data, func_freeze_at_time, func_freeze_at_time_nr}
use go_dnp.App.Qualifier.{
  Range, make_qualifier, prefix_none, range_all_objects, range_start_stop8, range_start_stop16,
  range_start_stop32,
}
use go_dnp.App.Header.{Header, Control, is_response, size, parse_header, append_header}
use go_dnp.App.Object.{ObjectHeader, object_size, parse_object_header, append_object_header}

pub record Fragment : Type 0 where
  pub header : Header
  pub objects : List ObjectHeader
  pub raw : List ℕ

-- The zero header, which stands beside an error.
abbrev pub no_header : Header
no_header = record {
  control = record { fir = false; fin = false; con = false; uns = false; seq = 0 };
  func = 0;
  iin = 0;
}

-- The error beside a parsed fragment; `out_of_fuel` is the model's own.
pub data Status : Type 0 where
  nil : Status
  failed : Error → Status
  out_of_fuel : Status

-- Whether data follow the header at an offset: FREEZE_AT_TIME is mixed, and its group 50 tells.
unfoldable pub object_carries_data : ℕ → List ℕ → ℕ → Bool
object_carries_data func buf off =
    if (func == func_freeze_at_time) || (func == func_freeze_at_time_nr)
    then get_or (drop off buf) 0 0 == 50
    else carries_object_data func

-- One pass of the loop has read a header, or not; `rest` goes on from the offset behind it.
unfoldable pub after_object :
    (ℕ → List ObjectHeader × Status)
    → ℕ
    → Result Error (ObjectHeader × ℕ)
    → List ObjectHeader × Status
after_object rest off (err e) = ([], failed e)
after_object rest off (ok (h, used)) =
    let later = rest (off + used) in
    if used == 0 then ([], failed truncated) else (h ∷ later.0, later.1)

-- The loop of `ParseFragment` on fuel.
unfoldable pub parse_objects : (ℕ → ℕ → Option ℕ) → ℕ → ℕ → List ℕ → ℕ → List ObjectHeader × Status
parse_objects sizer func zero buf off = ([], out_of_fuel)
parse_objects sizer func (suc fuel) buf off =
    let next =
      after_object (parse_objects sizer func fuel buf) off
        (parse_object_header sizer (drop off buf) off (object_carries_data func buf off)) in
    if leb (length buf) off then ([], nil) else next

-- Each header takes octets, so a pass for each octet and one more are enough.
unfoldable pub parse_fragment : (ℕ → ℕ → Option ℕ) → List ℕ → Fragment × Status
parse_fragment sizer buf = elim (parse_header buf) [
  | err e ↦ (record { header = no_header; objects = []; raw = buf }, failed e)
  | ok (h, n) ↦
      let run = parse_objects sizer h.func (length buf + 1) buf n in
      (record { header = h; objects = run.0; raw = buf }, run.1)
]

-- An error of its own, or that of a fragment in the wrong direction.
unfoldable pub or_wrong : Bool → ℕ → Status → Status
or_wrong wrong func nil = if wrong then failed (wrong_direction func) else nil
or_wrong wrong func (failed e) = failed e
or_wrong wrong func out_of_fuel = out_of_fuel

-- The fragment that was parsed, unless its direction is the wrong one.
unfoldable pub parse_request : (ℕ → ℕ → Option ℕ) → List ℕ → Fragment × Status
parse_request sizer buf =
    let (f, e) = parse_fragment sizer buf in (f, or_wrong (is_response f.header) f.header.func e)

unfoldable pub parse_response : (ℕ → ℕ → Option ℕ) → List ℕ → Fragment × Status
parse_response sizer buf =
    let (f, e) = parse_fragment sizer buf in
    (f, or_wrong (not (is_response f.header)) f.header.func e)

-- Of a builder's buffer only the octets written count; `max` is its capacity.
pub record Builder : Type 0 where
  pub buf : List ℕ
  pub max : ℕ
  pub header_written : Bool

abbrev pub default_max_fragment : ℕ
default_max_fragment = 2048

unfoldable pub new_builder : ℕ → Builder
new_builder max = record {
  buf = [];
  max = if max == 0 then default_max_fragment else max;
  header_written = false;
}

unfoldable pub reset : Builder → Builder
reset b = record b { buf = []; header_written = false }

unfoldable pub remaining : Builder → ℕ
remaining b = b.max - length b.buf

unfoldable pub set_header : Builder → Header → Builder × Option Error
set_header b h =
    if b.header_written
    then (b, some header_already_written)
    else if ltb (remaining b) (size h)
    then (b, some fragment_too_large)
    else (record b { buf = append_header b.buf h; header_written = true }, none)

unfoldable pub add_object : Builder → ObjectHeader → Builder × Option Error
add_object b h =
    if not b.header_written
    then (b, some header_not_written)
    else if ltb (remaining b) (object_size h)
    then (b, some fragment_too_large)
    else (record b { buf = append_object_header b.buf h }, none)

unfoldable pub fits : Builder → ObjectHeader → Bool
fits b h = leb (object_size h) (remaining b)

-- The loop over the objects of a built fragment.
unfoldable pub append_objects : List ℕ → List ObjectHeader → List ℕ
append_objects dst [] = dst
append_objects dst (o ∷ os) = append_objects (append_object_header dst o) os

unfoldable pub build_request : List ℕ → Control → ℕ → List ObjectHeader → List ℕ
build_request dst c fc objects =
    append_objects (append_header dst (record { control = c; func = fc; iin = 0 })) objects

unfoldable pub build_response : List ℕ → Control → ℕ → ℕ → List ObjectHeader → List ℕ
build_response dst c fc iin objects =
    append_objects (append_header dst (record { control = c; func = fc; iin = iin })) objects

unfoldable pub read_all_objects : ℕ → ℕ → ObjectHeader
read_all_objects group variation = record {
  group = group;
  variation = variation;
  qualifier = make_qualifier prefix_none range_all_objects;
  range = record { spec = range_all_objects; low = 0; stop = 0; count = 0 };
  payload = [];
  offset = 0;
  data_offset = 0;
}

-- `stop - start + 1` is taken in 32 bits; a stop below the start wraps there.
unfoldable pub read_range : ℕ → ℕ → ℕ → ℕ → ObjectHeader
read_range group variation start stop =
    let spec =
      if leb stop 0xff
      then range_start_stop8
      else if leb stop 0xffff
      then range_start_stop16
      else range_start_stop32 in
    record {
      group = group;
      variation = variation;
      qualifier = make_qualifier prefix_none spec;
      range = record {
        spec = spec;
        low = start;
        stop = stop;
        count = (stop + 4294967296 - start + 1) % 4294967296;
      };
      payload = [];
      offset = 0;
      data_offset = 0;
    }

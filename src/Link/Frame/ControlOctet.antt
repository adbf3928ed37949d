-- ===== src/Link/Frame/ControlOctet.antt =====
-- The control octet and its fields.
use go_dnp.Common.{ℕ, ◌+◌, ◌*◌, ◌%◌, ◌<◌, Bool, or_if, bit_of, ◌≡◌, arith}
use go_dnp.Common.Bits.{IsByte, or_high_nibble, and_0x80, and_0x40, and_0x20, and_0x10, and_0x0f}
use go_dnp.Link.Frame.{Control, control_byte, parse_control}

high : (d p f v : Bool) → ℕ
high d p f v = bit_of d * 8 + bit_of p * 4 + bit_of f * 2 + bit_of v

flags-high :
    (d p f v : Bool)
    → or_if v 0x10 (or_if f 0x20 (or_if p 0x40 (or_if d 0x80 0))) ≡ high d p f v * 16
unfolding high
flags-high d p f v = ground arith

-- The octet as a sum of its fields.
pub control_byte-sum :
    (c : Control)
    → c.func < 256
    → control_byte c
      ≡ bit_of c.dir * 128 + bit_of c.prm * 64 + bit_of c.fcb * 32 + bit_of c.fcv * 16 + c.func % 16
unfolding control_byte high
control_byte-sum c h =
    let k = high c.dir c.prm c.fcb c.fcv in
    ground
      (arith, flags-high c.dir c.prm c.fcb c.fcv, and_0x0f c.func h, or_high_nibble k (c.func % 16))

pub control_byte-IsByte : (c : Control) → c.func < 256 → IsByte (control_byte c)
control_byte-IsByte c h = rw (control_byte-sum c h) (ground arith)

-- A control field whose function code is below 16 comes back from its octet.
pub parse_control-control_byte : (c : Control) → c.func < 16 → parse_control (control_byte c) ≡ c
unfolding parse_control
parse_control-control_byte c h =
    let b = control_byte c in
    ground (arith, control_byte-sum c, and_0x80 b, and_0x40 b, and_0x20 b, and_0x10 b, and_0x0f b)

-- Every octet comes back from the control field that it is parsed to.
pub control_byte-parse_control : (b : ℕ) → IsByte b → control_byte (parse_control b) ≡ b
unfolding parse_control
control_byte-parse_control b h =
    let c = parse_control b in
    ground (
      arith,
      control_byte-sum c,
      and_0x80 b h,
      and_0x40 b h,
      and_0x20 b h,
      and_0x10 b h,
      and_0x0f b h,
    )

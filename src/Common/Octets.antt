-- ===== src/Common/Octets.antt =====
-- Octets as numbers: single bits, and little-endian integers as Go's encoding/binary lays them out.
use Prim.Native.Nat.{ℕ, ◌+◌, ◌*◌, ◌/◌, ◌%◌, bit_or}
use mathlib.Core.Bool.{Bool, true, false}
use mathlib.Core.List.{List, [], ◌∷◌}
use go_dnp.Common.Tests.{if◌then◌else◌}
use go_dnp.Common.Lists.{get_or}

-- `if flag { b |= mask }`
abbrev pub or_if : Bool → ℕ → ℕ → ℕ
or_if flag mask b = if flag then bit_or b mask else b

abbrev pub bit_of : Bool → ℕ
bit_of true = 1
bit_of false = 0

abbrev pub le16 : ℕ → List ℕ
le16 n = n % 256 ∷ n / 256 % 256 ∷ []

abbrev pub le32 : ℕ → List ℕ
le32 n = n % 256 ∷ n / 256 % 256 ∷ n / 65536 % 256 ∷ n / 16777216 % 256 ∷ []

-- The integer at the front of a buffer; the callers have checked that it is long enough.
abbrev pub read_le16 : List ℕ → ℕ
read_le16 buf = get_or buf 0 0 + get_or buf 1 0 * 256

abbrev pub read_le32 : List ℕ → ℕ
read_le32 buf =
    get_or buf 0 0 + get_or buf 1 0 * 256 + get_or buf 2 0 * 65536 + get_or buf 3 0 * 16777216

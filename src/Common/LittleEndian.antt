-- ===== src/Common/LittleEndian.antt =====
-- Octets read as a little-endian integer and written back.
use Prim.Native.Nat.{ℕ, ◌%◌, ◌≤◌}
use mathlib.Core.Path.{◌≡◌}
use mathlib.Core.List.{List, [], ◌∷◌}
use native.Mathlib.Omega.{arith}
use go_dnp.Common.Lists.{length, take, get_or, All}
use go_dnp.Common.Octets.{le16, le32, read_le16, read_le32}
use go_dnp.Common.Bits.{IsByte}

pub byte-read :
    (buf : List ℕ)
    → All IsByte buf
    → 1 ≤ length buf
    → ◌≡◌ {A = List ℕ} (get_or buf 0 0 % 256 ∷ []) (take 1 buf)
byte-read [] v h = absurd (omega arith)
byte-read (a ∷ buf) v h = ground (arith, v.0)

pub le16-read_le16 :
    (buf : List ℕ) → All IsByte buf → 2 ≤ length buf → le16 (read_le16 buf) ≡ take 2 buf
le16-read_le16 [] v h = absurd (omega arith)
le16-read_le16 (a ∷ []) v h = absurd (omega arith)
le16-read_le16 (a ∷ b ∷ buf) v h = ground (arith, v.0, v.1.0)

pub le32-read_le32 :
    (buf : List ℕ) → All IsByte buf → 4 ≤ length buf → le32 (read_le32 buf) ≡ take 4 buf
le32-read_le32 [] v h = absurd (omega arith)
le32-read_le32 (a ∷ []) v h = absurd (omega arith)
le32-read_le32 (a ∷ b ∷ []) v h = absurd (omega arith)
le32-read_le32 (a ∷ b ∷ c ∷ []) v h = absurd (omega arith)
le32-read_le32 (a ∷ b ∷ c ∷ d ∷ buf) v h = ground (arith, v.0, v.1.0, v.1.1.0, v.1.1.1.0)

-- ===== src/App/Qualifier/WriteBack.antt =====
-- A range that was read is written back as it was.
use go_dnp.Common.{
  ℕ, zero, suc, ◌%◌, ◌≤◌, true, List, [], ◌∷◌, ◌++◌, length, take, take-add, drop, length-drop, All,
  All-drop, get_or, le16, le32, read_le16, read_le32, ok, ◌≡◌, ◌≢◌, ap₂, ◌∙◌, arith,
}
use go_dnp.Common.Bits.{IsByte}
use go_dnp.Common.LittleEndian.{byte-read, le16-read_le16, le32-read_le32}
use go_dnp.App.Qualifier.RangeBounds.{parse_range-IsParsed}
use go_dnp.App.Qualifier.{
  Range, is_start_stop, range_valid, range_octets, range_fields, range_bounds, parse_range,
  append_range,
}

pair-read :
    (buf : List ℕ)
    → All IsByte buf
    → 2 ≤ length buf
    → ◌≡◌ {A = List ℕ} (get_or buf 0 0 % 256 ∷ get_or buf 1 0 % 256 ∷ []) (take 2 buf)
pair-read [] v h = absurd (omega arith)
pair-read (a ∷ []) v h = absurd (omega arith)
pair-read (a ∷ b ∷ buf) v h = ground (arith, v.0, v.1.0)

le16-twice :
    (buf : List ℕ)
    → All IsByte buf
    → 4 ≤ length buf
    → le16 (read_le16 buf) ++ le16 (read_le16 (drop 2 buf)) ≡ take 4 buf
le16-twice buf v h =
    ap₂ (λ xs ys. xs ++ ys) (le16-read_le16 buf v (omega arith))
      (le16-read_le16 (drop 2 buf) (All-drop IsByte 2 buf v) (omega (arith, length-drop 2 buf)))
    ∙ take-add 2 2 buf

le32-twice :
    (buf : List ℕ)
    → All IsByte buf
    → 8 ≤ length buf
    → le32 (read_le32 buf) ++ le32 (read_le32 (drop 4 buf)) ≡ take 8 buf
le32-twice buf v h =
    ap₂ (λ xs ys. xs ++ ys) (le32-read_le32 buf v (omega arith))
      (le32-read_le32 (drop 4 buf) (All-drop IsByte 4 buf v) (omega (arith, length-drop 4 buf)))
    ∙ take-add 4 4 buf

beyond : (spec : ℕ) → 12 ≤ spec → range_valid spec ≢ true
unfolding range_valid
beyond spec h e = ground arith

-- The octets that a range which was read from a buffer of octets took are those that write it.
pub append_range-parse_range :
    (spec : ℕ) (buf : List ℕ) (r : Range) (n : ℕ)
    → All IsByte buf
    → parse_range spec buf ≡ ok (r, n)
    → append_range [] r ≡ take n buf
unfolding parse_range append_range range_fields range_bounds range_octets is_start_stop
append_range-parse_range zero buf r n v e = ground (arith, pair-read buf v)
append_range-parse_range (suc zero) buf r n v e = ground (arith, le16-twice buf v)
append_range-parse_range (suc (suc zero)) buf r n v e = ground (arith, le32-twice buf v)
append_range-parse_range (suc (suc (suc zero))) buf r n v e = ground (arith, pair-read buf v)
append_range-parse_range (suc (suc (suc (suc zero)))) buf r n v e = ground (arith, le16-twice buf v)
append_range-parse_range (suc (suc (suc (suc (suc zero))))) buf r n v e =
    ground (arith, le32-twice buf v)
append_range-parse_range (suc (suc (suc (suc (suc (suc zero)))))) buf r n v e = ground arith
append_range-parse_range (suc (suc (suc (suc (suc (suc (suc zero))))))) buf r n v e =
    ground (arith, byte-read buf v)
append_range-parse_range (suc (suc (suc (suc (suc (suc (suc (suc zero)))))))) buf r n v e =
    ground (arith, le16-read_le16 buf v)
append_range-parse_range (suc (suc (suc (suc (suc (suc (suc (suc (suc zero))))))))) buf r n v e =
    ground (arith, le32-read_le32 buf v)
append_range-parse_range (suc (suc (suc (suc (suc (suc (suc (suc (suc (suc zero)))))))))) buf r n v
      e =
    ground arith
append_range-parse_range (suc (suc (suc (suc (suc (suc (suc (suc (suc (suc (suc zero))))))))))) buf
      r n v e =
    ground (arith, byte-read buf v)
append_range-parse_range
      (suc (suc (suc (suc (suc (suc (suc (suc (suc (suc (suc (suc spec)))))))))))) buf r n v e =
    absurd (
      beyond (suc (suc (suc (suc (suc (suc (suc (suc (suc (suc (suc (suc spec))))))))))))
        (omega arith)
        (parse_range-IsParsed
          (suc (suc (suc (suc (suc (suc (suc (suc (suc (suc (suc (suc spec)))))))))))) buf r n
          e).valid)

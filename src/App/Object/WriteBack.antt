-- ===== src/App/Object/WriteBack.antt =====
-- An object header that was read is written back as it was.
use go_dnp.Common.{
  ℕ, ◌+◌, ◌%◌, ◌≤◌, Bool, Option, List, [], ◌∷◌, ◌++◌, append_assoc, append-nil, le16, le32, length,
  get_or, take, take-add, drop, drop-drop, All, All-drop, ok, ◌≡◌, sym, ap, ap₂, ◌∙◌, arith,
}
use go_dnp.Common.Bits.{IsByte}
use go_dnp.App.Qualifier.{Range, range_spec, append_range}
use go_dnp.App.Qualifier.WriteBack.{append_range-parse_range}
use go_dnp.App.Object.{ObjectHeader, parse_object_header, append_object_header}
use go_dnp.App.Object.Extent.{parse_object_header-Parts}

triple-read :
    (buf : List ℕ)
    → All IsByte buf
    → 3 ≤ length buf
    → ◌≡◌ {A = List ℕ}
        (get_or buf 0 0 % 256 ∷ get_or buf 1 0 % 256 ∷ get_or buf 2 0 % 256 ∷ [])
        (take 3 buf)
triple-read [] v h = absurd (omega arith)
triple-read (a ∷ []) v h = absurd (omega arith)
triple-read (a ∷ b ∷ []) v h = absurd (omega arith)
triple-read (a ∷ b ∷ c ∷ buf) v h = ground (arith, v.0, v.1.0, v.1.1.0)

-- `append_range` writes behind what there is.
pub append_range-front : (dst : List ℕ) (r : Range) → append_range dst r ≡ dst ++ append_range [] r
unfolding append_range
append_range-front dst r = ground (
  arith,
  append-nil dst,
  append_assoc dst (le16 r.low) (le16 r.stop),
  append_assoc dst (le32 r.low) (le32 r.stop),
)

abbrev octets : ObjectHeader → List ℕ
octets h = h.group % 256 ∷ h.variation % 256 ∷ h.qualifier % 256 ∷ []

-- The octets that an object header which was read from a buffer of octets took are those that write it.
pub append_object_header-parse_object_header :
    (sizer : ℕ → ℕ → Option ℕ) (buf : List ℕ) (offset : ℕ) (carries : Bool) (h : ObjectHeader)
    (n : ℕ)
    → All IsByte buf
    → parse_object_header sizer buf offset carries ≡ ok (h, n)
    → append_object_header [] h ≡ take n buf
unfolding append_object_header
append_object_header-parse_object_header sizer buf offset carries h n v e =
    let p = parse_object_header-Parts sizer buf offset carries h n e in
    let rest = drop 3 buf in
    let written : append_range [] h.range ≡ take p.range_len rest =
      append_range-parse_range (range_spec (get_or buf 2 0)) rest h.range p.range_len
        (All-drop IsByte 3 buf v) p.ranged in
    let body : h.payload ≡ take p.data_len (drop p.range_len rest) =
      ap (λ x. x.payload) p.made ∙ ap (take p.data_len) (sym (drop-drop 3 p.range_len buf)) in
    let front : append_range (octets h) h.range ≡ take 3 buf ++ take p.range_len rest =
      append_range-front (octets h) h.range
      ∙ ap₂ (λ xs ys. xs ++ ys) (ap octets p.made ∙ triple-read buf v p.fixed) written in
    ap₂ (λ xs ys. xs ++ ys) (front ∙ take-add 3 p.range_len buf)
      (body ∙ ap (take p.data_len) (drop-drop 3 p.range_len buf))
    ∙ take-add (3 + p.range_len) p.data_len buf
    ∙ ap (λ k. take k buf) (sym p.taken)

-- ===== src/App/Fragment/Build.antt =====
-- The builder keeps a fragment within its maximum.
use go_dnp.Common.{
  ℕ, ◌+◌, ◌/◌, ◌%◌, ◌≤◌, Option, none, List, [], ◌∷◌, ◌++◌, length, length-append, le16, le32, ◌≡◌,
  ◌⊎◌, ap, arith,
}
use go_dnp.App.Errors.{Error}
use go_dnp.App.Header.{Header, control_byte, size, append_header}
use go_dnp.App.Iin.{octets}
use go_dnp.App.Qualifier.{Range, range_spec, range_octets, append_range}
use go_dnp.App.Object.{ObjectHeader, object_size, append_object_header}
use go_dnp.App.Fragment.{Builder, reset, remaining, set_header, add_object}

-- The operations that change a builder.
pub data Op : Type 0 where
  resets : Op
  sets : Header → Op
  adds : ObjectHeader → Op

unfoldable pub step : Builder → Op → Builder × Option Error
step b resets = (reset b, none)
step b (sets h) = set_header b h
step b (adds h) = add_object b h

-- The range of the header is the one that its qualifier announces.
abbrev pub IsAnnounced : Op → Type 0
IsAnnounced resets = Unit {0}
IsAnnounced (sets h) = Unit {0}
IsAnnounced (adds h) = h.range.spec ≡ range_spec h.qualifier

length-append_range :
    (dst : List ℕ) (r : Range) → length (append_range dst r) ≡ length dst + range_octets r.spec
unfolding append_range range_octets
length-append_range dst r = ground (
  arith,
  length-append dst (r.low % 256 ∷ r.stop % 256 ∷ []),
  length-append dst (le16 r.low),
  length-append (dst ++ le16 r.low) (le16 r.stop),
  length-append dst (le32 r.low),
  length-append (dst ++ le32 r.low) (le32 r.stop),
  length-append dst (r.count % 256 ∷ []),
  length-append dst (le16 r.count),
  length-append dst (le32 r.count),
)

length-append_header :
    (dst : List ℕ) (h : Header) → length (append_header dst h) ≡ length dst + size h
unfolding append_header size octets
length-append_header dst h =
    let out = dst ++ (control_byte h.control ∷ h.func % 256 ∷ []) in
    ground (
      arith,
      length-append dst (control_byte h.control ∷ h.func % 256 ∷ []),
      length-append out (h.iin % 256 ∷ h.iin / 256 % 256 ∷ []),
    )

length-append_object_header :
    (dst : List ℕ) (h : ObjectHeader)
    → h.range.spec ≡ range_spec h.qualifier
    → length (append_object_header dst h) ≡ length dst + object_size h
unfolding append_object_header object_size
length-append_object_header dst h e =
    let fixed = h.group % 256 ∷ h.variation % 256 ∷ h.qualifier % 256 ∷ [] in
    omega (
      arith,
      length-append (append_range (dst ++ fixed) h.range) h.payload,
      length-append_range (dst ++ fixed) h.range,
      length-append dst fixed,
      ap range_octets e,
    )

-- From a fragment within the maximum, each operation leaves one within it; a refused one leaves the
-- builder as it was.
pub step-bounded :
    (b : Builder) (op : Op)
    → IsAnnounced op
    → length b.buf ≤ b.max
    → (length (step b op).0.buf ≤ b.max)
      × ((step b op).0.max ≡ b.max)
      × (((step b op).0 ≡ b) ⊎ ((step b op).1 ≡ none))
unfolding step reset set_header add_object remaining
step-bounded b resets a l = ground arith
step-bounded b (sets h) a l = ground (arith, length-append_header b.buf h)
step-bounded b (adds h) a l = ground (arith, length-append_object_header b.buf h a)

-- ===== src/Transport/Segmenter.antt =====
-- The segmenter of internal/transport/transport.go. A slice of the fragment is a list, and
-- `frag[off:end]` is `take (end - off) (drop off frag)`.
pub mod Spec
use go_dnp.Common.{
  ℕ, zero, suc, ◌+◌, ◌-◌, ◌/◌, ◌%◌, min, Bool, true, false, leb, ◌==◌, if◌then◌else◌, List, [], ◌∷◌,
  ◌++◌, length, take, drop,
}
use go_dnp.Transport.Header.{Header, header_byte, seq_modulus}

abbrev pub max_segment_payload : ℕ
max_segment_payload = 249

unfoldable pub segments_for : ℕ → ℕ
segments_for n = if leb n 0 then 1 else (n + max_segment_payload - 1) / max_segment_payload

pub record Segmenter : Type 0 where
  pub frag : List ℕ
  pub off : ℕ
  pub seq : ℕ
  pub live : Bool

unfoldable pub set_seq : Segmenter → ℕ → Segmenter
set_seq s v = record s { seq = v % seq_modulus }

unfoldable pub reset : Segmenter → List ℕ → Segmenter
reset s fragment = record s { frag = fragment; off = 0; live = true }

unfoldable pub clear : Segmenter → Segmenter
clear s = record s { frag = []; off = 0; live = false }

-- The new state, the extended slice, and whether a segment was emitted.
unfoldable pub next : Segmenter → List ℕ → Segmenter × List ℕ × Bool
next s dst =
    let end = min (s.off + max_segment_payload) (length s.frag) in
    let last = leb (length s.frag) end in
    let h : Header = record { fir = s.off == 0; fin = last; seq = s.seq } in
    let out = dst ++ (header_byte h ∷ take (end - s.off) (drop s.off s.frag)) in
    if s.live
    then (
      record {
        frag = if last then [] else s.frag;
        off = end;
        seq = (s.seq + 1) % seq_modulus;
        live = if last then false else s.live;
      },
      out,
      true,
    )
    else (s, dst, false)

-- The loop of `SegmentAll`, on fuel.
abbrev pub gather :
    (Segmenter → Segmenter × List (List ℕ)) → Segmenter × List ℕ × Bool → Segmenter × List (List ℕ)
gather rest (s, segment, true) = ((rest s).0, segment ∷ (rest s).1)
gather rest (s, segment, false) = (s, [])

unfoldable pub segment_loop : ℕ → Segmenter → Segmenter × List (List ℕ)
segment_loop zero s = (s, [])
segment_loop (suc fuel) s = gather (segment_loop fuel) (next s [])

-- One round for each segment, and one that finds none left.
unfoldable pub segment_all : Segmenter → List ℕ → Segmenter × List (List ℕ)
unfolding segments_for segment_loop reset
segment_all s fragment = segment_loop (segments_for (length fragment) + 1) (reset s fragment)

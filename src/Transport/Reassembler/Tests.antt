-- ===== src/Transport/Reassembler/Tests.antt =====
-- A new reassembler, and one that holds the first octets of a fragment.
use go_dnp.Common.{true, false, [], ◌∷◌, some, ◌≡◌, refl, arith}
use go_dnp.Transport.Header.{parse_header}
use go_dnp.Transport.Segmenter.{Segmenter, segment_all}
use go_dnp.Transport.Reassembler.{Reassembler, new_reassembler, limit, start, append, accept}
use go_dnp.Transport.Reassembler.Invariant.{Inv, accept-Inv}
use go_dnp.Transport.Reassembler.RoundTrip.{feed, feed-segment_all}

abbrev holding : Reassembler
holding = record (new_reassembler 0) { buf = 0xc0 ∷ 0x01 ∷ []; expect = 5; assembly = true }

holding-Inv : Inv holding
unfolding limit
holding-Inv = ground arith

accept-Inv_example : Inv (accept holding (0x85 ∷ 0x3c ∷ [])).0
accept-Inv_example = accept-Inv holding (0x85 ∷ 0x3c ∷ []) holding-Inv

accepted : (accept holding (0x85 ∷ 0x3c ∷ [])).1.fragment ≡ some (0xc0 ∷ 0x01 ∷ 0x3c ∷ [])
unfolding accept start append limit parse_header
accepted = refl

abbrev source : Segmenter
source = record { frag = []; off = 0; seq = 63; live = false }

feed-segment_all_example :
    feed holding (segment_all source (0xc1 ∷ 0x02 ∷ [])).1 ≡ (0xc1 ∷ 0x02 ∷ []) ∷ []
unfolding limit
feed-segment_all_example =
    feed-segment_all holding source (0xc1 ∷ 0x02 ∷ []) (omega arith) (omega arith)

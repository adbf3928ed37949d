-- ===== src/Transport/Reassembler/Invariant.antt =====
-- Bounds and counters of the reassembler.
use go_dnp.Common.{ℕ, ◌+◌, ◌≤◌, List, length, length-append, some, ◌≡◌, ◌≢◌, refl, arith, [], ◌∷◌}
use go_dnp.Transport.Header.{Header, parse_header}
use go_dnp.Transport.Reassembler.{
  Reassembler, Discards, DiscardReason, nothing, empty_segment, no_fir, unexpected_fir,
  bad_sequence, overflow, reset, limit, append, start, accept, discard,
}

abbrev pub total : Discards → ℕ
total d =
    d.nothings + d.empty_segments + d.no_firs + d.unexpected_firs + d.bad_sequences + d.overflows

-- The buffer keeps to the limit, and each discarded segment is counted under one reason.
pub record Inv (r : Reassembler) : Type 0 where
  pub bounded : length r.buf ≤ limit r
  pub itemised : r.stats.segments_discarded ≡ total r.stats.discards
  pub reasoned : r.stats.discards.nothings ≡ 0

append-Inv : (r : Reassembler) (h : Header) (payload : List ℕ) → Inv r → Inv (append r h payload).0
unfolding append
append-Inv r h payload v = ground (arith, length-append r.buf payload)

start-Inv : (r : Reassembler) (h : Header) (payload : List ℕ) → Inv r → Inv (start r h payload).0
unfolding start limit
start-Inv r h payload v = ground arith

discard-Inv :
    (r : Reassembler) (reason : DiscardReason) → reason ≢ nothing → Inv r → Inv (discard r reason).0
unfolding discard limit
discard-Inv r nothing n v = absurd (n refl)
discard-Inv r empty_segment n v = ground arith
discard-Inv r no_fir n v = ground arith
discard-Inv r unexpected_fir n v = ground arith
discard-Inv r bad_sequence n v = ground arith
discard-Inv r overflow n v = ground arith

-- Every segment, of whatever octets, keeps the buffer within the limit, the number of discarded
-- segments equal to the sum over the reasons, and none counted without a reason.
pub accept-Inv : (r : Reassembler) (segment : List ℕ) → Inv r → Inv (accept r segment).0
unfolding accept limit reset
accept-Inv r [] v = discard-Inv _ empty_segment (λ e. cc) (ground arith)
accept-Inv r (b ∷ payload) v =
    let q = record r {
      stats = record r.stats { segments_received = r.stats.segments_received + 1 };
    } in
    let w : Inv q = ground arith in
    let z : Inv (reset q) = ground arith in
    ground (
      arith,
      start-Inv q (parse_header b) payload w,
      discard-Inv q no_fir (λ e. cc) w,
      discard-Inv (reset q) bad_sequence (λ e. cc) z,
      append-Inv q (parse_header b) payload w,
    )

-- A fragment that is delivered, in any state and at any segment, is no longer than the limit.
pub accept-limit :
    (r : Reassembler) (segment fragment : List ℕ)
    → (accept r segment).1.fragment ≡ some fragment
    → length fragment ≤ limit r
unfolding accept start append limit reset discard
accept-limit r [] fragment e = cc
accept-limit r (b ∷ payload) fragment e = ground (arith, length-append r.buf payload)

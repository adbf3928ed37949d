-- ===== src/Transport/Reassembler.antt =====
-- The reassembler of internal/transport/transport.go. `max_fragment` 0 means the default, and the
-- counters do not wrap. A nil `Fragment` is `none`.
pub mod Invariant
mod Accepts
pub mod RoundTrip
mod Tests
use go_dnp.Common.{
  ℕ, ◌+◌, ◌%◌, Bool, true, false, not, ltb, ◌!=◌, ◌==◌, if◌then◌else◌, Option, none, some, List, [],
  ◌∷◌, ◌++◌, length,
}
use go_dnp.Transport.Header.{Header, parse_header, seq_modulus}

abbrev pub default_max_fragment : ℕ
default_max_fragment = 2048

pub data DiscardReason : Type 0 where
  nothing empty_segment no_fir unexpected_fir bad_sequence overflow : DiscardReason

-- `Discards`, indexed by the reason.
pub record Discards : Type 0 where
  pub nothings : ℕ
  pub empty_segments : ℕ
  pub no_firs : ℕ
  pub unexpected_firs : ℕ
  pub bad_sequences : ℕ
  pub overflows : ℕ

pub record Stats : Type 0 where
  pub segments_received : ℕ
  pub fragments_completed : ℕ
  pub segments_discarded : ℕ
  pub discards : Discards

unfoldable pub bump : DiscardReason → Discards → Discards
bump nothing d = record d { nothings = d.nothings + 1 }
bump empty_segment d = record d { empty_segments = d.empty_segments + 1 }
bump no_fir d = record d { no_firs = d.no_firs + 1 }
bump unexpected_fir d = record d { unexpected_firs = d.unexpected_firs + 1 }
bump bad_sequence d = record d { bad_sequences = d.bad_sequences + 1 }
bump overflow d = record d { overflows = d.overflows + 1 }

-- `SegmentsDiscarded++` and `Discards[reason]++`
unfoldable pub count_discard : DiscardReason → Stats → Stats
unfolding bump
count_discard reason s = record s {
  segments_discarded = s.segments_discarded + 1;
  discards = bump reason s.discards;
}

pub record Reassembler : Type 0 where
  pub max_fragment : ℕ
  pub buf : List ℕ
  pub expect : ℕ
  pub assembly : Bool
  pub stats : Stats

pub record Result : Type 0 where
  pub fragment : Option (List ℕ)
  pub discarded : DiscardReason

abbrev pub new_reassembler : ℕ → Reassembler
new_reassembler max_fragment = record {
  max_fragment = if max_fragment == 0 then default_max_fragment else max_fragment;
  buf = [];
  expect = 0;
  assembly = false;
  stats = record {
    segments_received = 0;
    fragments_completed = 0;
    segments_discarded = 0;
    discards = record {
      nothings = 0;
      empty_segments = 0;
      no_firs = 0;
      unexpected_firs = 0;
      bad_sequences = 0;
      overflows = 0;
    };
  };
}

unfoldable pub reset : Reassembler → Reassembler
reset r = record r { buf = []; assembly = false }

unfoldable pub limit : Reassembler → ℕ
limit r = if r.max_fragment == 0 then default_max_fragment else r.max_fragment

unfoldable pub discard : Reassembler → DiscardReason → Reassembler × Result
unfolding count_discard
discard r reason = (
  record r { stats = count_discard reason r.stats },
  record { fragment = none; discarded = reason },
)

unfoldable pub append : Reassembler → Header → List ℕ → Reassembler × Result
unfolding reset limit discard
append r h payload =
    let q = record r { buf = r.buf ++ payload; expect = (h.seq + 1) % seq_modulus } in
    if ltb (limit r) (length r.buf + length payload)
    then discard (reset r) overflow
    else if not h.fin
    then (q, record { fragment = none; discarded = nothing })
    else (
      record q {
        assembly = false;
        stats = record q.stats { fragments_completed = q.stats.fragments_completed + 1 };
      },
      record { fragment = some q.buf; discarded = nothing },
    )

-- `if res.Discarded == DiscardNone { res.Discarded = reported }`
unfoldable pub or_reported : DiscardReason → DiscardReason → DiscardReason
or_reported reported nothing = reported
or_reported reported empty_segment = empty_segment
or_reported reported no_fir = no_fir
or_reported reported unexpected_fir = unexpected_fir
or_reported reported bad_sequence = bad_sequence
or_reported reported overflow = overflow

-- A first segment, whether or not a fragment was in progress.
unfoldable pub start : Reassembler → Header → List ℕ → Reassembler × Result
unfolding append or_reported
start r h payload =
    let q = if r.assembly then record r { stats = count_discard unexpected_fir r.stats } else r in
    let (r', res) = append (record q { buf = []; assembly = true; expect = h.seq }) h payload in
    (
      r',
      record res {
        discarded = or_reported (if r.assembly then unexpected_fir else nothing) res.discarded;
      },
    )

unfoldable pub accept : Reassembler → List ℕ → Reassembler × Result
accept r segment =
    let q = record r {
      stats = record r.stats { segments_received = r.stats.segments_received + 1 };
    } in
    elim segment [
      | [] ↦ discard q empty_segment
      | b ∷ payload ↦
          let h = parse_header b in
          if h.fir
          then start q h payload
          else if not q.assembly
          then discard q no_fir
          else if h.seq != q.expect
          then discard (reset q) bad_sequence
          else append q h payload
    ]

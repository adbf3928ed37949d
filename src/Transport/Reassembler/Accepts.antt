-- ===== src/Transport/Reassembler/Accepts.antt =====
-- What the reassembler makes of one more segment of a fragment.
use go_dnp.Common.{
  ℕ, ◌+◌, ◌%◌, ◌≤◌, ◌<◌, Bool, true, false, ◌!=◌, if◌then◌else◌, some, none, List, [], ◌++◌, ◌≡◌,
  refl, ap, sym, length, arith,
}
use go_dnp.Transport.Header.{parse_header-header_byte}
use go_dnp.Transport.Segmenter.Spec.{segment}
use go_dnp.Transport.Reassembler.{
  Reassembler, Result, count_discard, unexpected_fir, limit, append, start, accept,
}

-- In the middle of a fragment.
pub record Carries (r : Reassembler) (part : List ℕ) (seq bound : ℕ) : Type 0 where
  pub assembling : r.assembly ≡ true
  pub holding : r.buf ≡ part
  pub expecting : r.expect ≡ seq
  pub bounding : limit r ≡ bound

abbrev pub Continues : Reassembler × Result → List ℕ → ℕ → ℕ → Type 0
Continues out part seq bound = out.1.fragment ≡ none × Carries out.0 part seq bound

-- Appending to a fragment in progress, within the limit.
pub append-more :
    (r : Reassembler) (fir : Bool) (seq bound : ℕ) (part payload : List ℕ)
    → Carries r part seq bound
    → length part + length payload ≤ bound
    → Continues
        (append r (record { fir = fir; fin = false; seq = seq }) payload)
        (part ++ payload)
        ((seq + 1) % 64)
        bound
unfolding append limit
append-more r fir seq bound part payload c h =
    rw (sym c.holding, sym c.bounding) ground (arith, ap length c.holding)

pub append-last :
    (r : Reassembler) (fir : Bool) (seq bound : ℕ) (part payload : List ℕ)
    → Carries r part seq bound
    → length part + length payload ≤ bound
    → (append r (record { fir = fir; fin = true; seq = seq }) payload).1.fragment
      ≡ some (part ++ payload)
unfolding append
append-last r fir seq bound part payload c h =
    rw (sym c.holding) ground (arith, ap length c.holding)

abbrev pub counted : Reassembler → Reassembler
counted r = record r {
  stats = record r.stats { segments_received = r.stats.segments_received + 1 };
}

pub counted-Carries :
    (r : Reassembler) (part : List ℕ) (seq bound : ℕ)
    → Carries r part seq bound
    → Carries (counted r) part seq bound
unfolding limit
counted-Carries r part seq bound c = ground arith

!=_refl : (a : ℕ) → (a != a) ≡ false
!=_refl a = ground arith

-- A segment after the first goes to `append`, and a first one too, with the buffer emptied.
pub accept-append :
    (r : Reassembler) (part payload : List ℕ) (fin : Bool) (seq bound : ℕ)
    → seq < 64
    → Carries r part seq bound
    → accept r (segment false fin seq payload)
      ≡ append (counted r) (record { fir = false; fin = fin; seq = seq }) payload
unfolding accept
accept-append r part payload fin seq bound s c =
    rw
      (
        parse_header-header_byte (record { fir = false; fin = fin; seq = seq }) s,
        c.assembling,
        c.expecting,
        !=_refl seq,
      )
      refl

pub accept-more :
    (r : Reassembler) (part payload : List ℕ) (seq bound : ℕ)
    → seq < 64
    → Carries r part seq bound
    → length part + length payload ≤ bound
    → Continues
        (accept r (segment false false seq payload))
        (part ++ payload)
        ((seq + 1) % 64)
        bound
accept-more r part payload seq bound s c h =
    rw (accept-append r part payload false seq bound s c)
      (append-more (counted r) false seq bound part payload (counted-Carries r part seq bound c) h)

abbrev pub begun : Reassembler → ℕ → Reassembler
begun r seq =
    let q = if r.assembly then record r { stats = count_discard unexpected_fir r.stats } else r in
    record q { buf = []; assembly = true; expect = seq }

pub begun-Carries : (r : Reassembler) (seq : ℕ) → Carries (begun r seq) [] seq (limit r)
unfolding limit
begun-Carries r seq = ground arith

pub accept-start :
    (r : Reassembler) (payload : List ℕ) (fin : Bool) (seq : ℕ)
    → seq < 64
    → (accept r (segment true fin seq payload)).1.fragment
      ≡ (append
          (begun (counted r) seq)
          (record { fir = true; fin = fin; seq = seq })
          payload).1.fragment
unfolding accept start
accept-start r payload fin seq s =
    rw (parse_header-header_byte (record { fir = true; fin = fin; seq = seq }) s) refl

pub accept-start-state :
    (r : Reassembler) (payload : List ℕ) (fin : Bool) (seq : ℕ)
    → seq < 64
    → (accept r (segment true fin seq payload)).0
      ≡ (append (begun (counted r) seq) (record { fir = true; fin = fin; seq = seq }) payload).0
unfolding accept start
accept-start-state r payload fin seq s =
    rw (parse_header-header_byte (record { fir = true; fin = fin; seq = seq }) s) refl

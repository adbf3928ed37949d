-- ===== src/Link/Parser/Capacity.antt =====
-- What `Write` takes, and the bounds of the backing array.
use go_dnp.Common.{
  ℕ, ◌+◌, ◌-◌, ◌≤◌, ◌<◌, min, true, ltb, if◌then◌else◌, List, ◌++◌, length, length-append,
  length-take, take, ltb→lt, lt→ltb, ◌≡◌, ap, arith, ◌↔◌,
}
use go_dnp.Link.Parser.{Parser, written, slide, write}

-- The offsets stay inside the array of 584 octets.
abbrev pub IsWithin : Parser → Type 0
IsWithin p = written p ≤ 584

-- The state that `Write` copies into, and how much it copies.
abbrev reclaimed : Parser → List ℕ → Parser
reclaimed p b = if ltb (584 - written p) (length b) then slide p else p

abbrev room : Parser → List ℕ → ℕ
room q b = min (584 - written q) (length b)

reclaimed_lem :
    (p : Parser) (b : List ℕ)
    → IsWithin p
    → ((reclaimed p b).held ≡ p.held)
      × ((reclaimed p b).stats ≡ p.stats)
      × IsWithin (reclaimed p b)
      × (room (reclaimed p b) b ≡ min (584 - length p.held) (length b))
unfolding slide
reclaimed_lem p b h = (ground arith, ground arith, ground arith, ground arith)

-- While the offsets are within the array, `Write` appends the octets it accepts behind those held, in
-- order, and leaves the counters alone. It accepts as many as fit beside those held, reports a full
-- buffer exactly if that is not all, and the offsets stay within the array.
pub write_lem :
    (p : Parser) (b : List ℕ)
    → IsWithin p
    → let (p', n, full) = write p b in
      (p'.held ≡ p.held ++ take n b)
      × (p'.stats ≡ p.stats)
      × (n ≡ min (584 - length p.held) (length b))
      × ((full ≡ true) ↔ (584 < length p.held + length b))
      × IsWithin p'
unfolding write
write_lem p b h =
    let q = reclaimed p b in
    let facts = reclaimed_lem p b h in
    (
      ap (λ t. t ++ take (room q b) b) facts.0,
      facts.1,
      facts.3,
      (
        λ full. omega (arith, ltb→lt (room q b) (length b) full, facts.3),
        λ over. lt→ltb (room q b) (length b) (omega (arith, facts.3)),
      ),
      omega (arith, length-append q.held (take (room q b) b), length-take (room q b) b, facts.2),
    )

-- ===== src/Link/Parser/Progress.antt =====
-- The loop of `Next` ends, and it accounts for every octet.
use go_dnp.Common.{
  ℕ, zero, suc, ◌+◌, ◌≤◌, ◌<◌, true, ◌||◌, ltb, ◌!=◌, List, [], ◌∷◌, length, drop, get_or,
  length-drop, drop-drop, some, ok, err, Result, Option-cases, ◌≡◌, ◌≢◌, refl, ap, subst, ◌∙◌, inl,
  inr, arith, Bool-cases,
}
use go_dnp.Link.Frame.{Frame, FrameError, short_frame, decode, frame_size, payload_len}
use go_dnp.Link.Parser.{
  Parser, Outcome, got, need_more, again, discard, resync_length, resync, index_delimiter,
  count_error, on_decoded, round, next_loop, next,
}
use go_dnp.Link.Frame.Sound.{decode-inv}
use native.Mathlib.Nat.{add-zero}

-- `resync` never discards more than there is.
index_delimiter-lt : (held : List ℕ) (i : ℕ) → index_delimiter held ≡ some i → i < length held
unfolding index_delimiter
index_delimiter-lt [] i e = cc
index_delimiter-lt (a ∷ []) i e = cc
index_delimiter-lt (a ∷ b ∷ rest) i e = elim (Option-cases (index_delimiter (b ∷ rest))) [
  | inl none_left ↦ ground arith
  | inr (j, later) ↦ ground (arith, index_delimiter-lt (b ∷ rest) j later)
]

resync_length-le : (held : List ℕ) → resync_length held ≤ length held
unfolding resync_length
resync_length-le held = elim (Option-cases (index_delimiter held)) [
  | inl e ↦ rw (e, resync_length) (omega arith)
  | inr (i, e) ↦ rw (e, resync_length) (omega (arith, index_delimiter-lt held i e))
]

-- What does not begin with the delimiter loses an octet at least.
index_delimiter-pos :
    (held : List ℕ) (i : ℕ)
    → ((get_or held 0 0 != 0x05) || (get_or held 1 0 != 0x64)) ≡ true
    → index_delimiter held ≡ some i
    → 0 < i
unfolding index_delimiter
index_delimiter-pos [] i h e = cc
index_delimiter-pos (a ∷ []) i h e = cc
index_delimiter-pos (a ∷ b ∷ rest) i h e = ground (arith, Option-cases (index_delimiter (b ∷ rest)))

resync_length-pos :
    (held : List ℕ)
    → ((get_or held 0 0 != 0x05) || (get_or held 1 0 != 0x64)) ≡ true
    → 2 ≤ length held
    → 0 < resync_length held
unfolding resync_length
resync_length-pos held h l = elim (Option-cases (index_delimiter held)) [
  | inl e ↦ rw (e, resync_length) (ground arith)
  | inr (i, e) ↦ rw (e, resync_length) (index_delimiter-pos held i h e)
]

-- From `p` to `p'` the first `n` octets went, `d` of them discarded.
pub record Takes (n d : ℕ) (p p' : Parser) : Type 0 where
  pub left : p'.held ≡ drop n p.held
  pub enough : n ≤ length p.held
  pub counted : p'.stats.bytes_discarded ≡ p.stats.bytes_discarded + d

Takes-trans :
    {n d m e : ℕ} {p q r : Parser} → Takes n d p q → Takes m e q r → Takes (n + m) (d + e) p r
Takes-trans {n} {d} {m} {e} {p} {q} {r} s t = record {
  left = t.left ∙ ap (drop m) s.left ∙ drop-drop n m p.held;
  enough = omega (arith, t.enough, s.enough, ap length s.left, length-drop n p.held);
  counted = omega (arith, t.counted, s.counted);
}

pub resync-Takes : (p : Parser) → Takes (resync_length p.held) (resync_length p.held) p (resync p)
unfolding resync
resync-Takes p = record {
  left = ground arith;
  enough = resync_length-le p.held;
  counted = ground arith;
}

-- The octets of a frame that was found.
abbrev pub taken : Outcome → ℕ
taken (got f) = frame_size (payload_len f.header)
taken need_more = 0
taken again = 0

-- One pass: a frame is taken whole; a further pass has lost an octet at least.
record Pass (p : Parser) (r : Parser × Outcome) : Type 0 where
  lost : ℕ
  takes : Takes (lost + taken r.1) lost p r.0
  shrinks : r.1 ≡ again → 0 < lost

rejected-Pass :
    (p q : Parser)
    → q.held ≡ p.held
    → q.stats.bytes_discarded ≡ p.stats.bytes_discarded
    → 1 ≤ length p.held
    → Pass p (resync (discard 1 q), again)
rejected-Pass p q same counted h = record {
  lost = 1 + resync_length (discard 1 q).held;
  takes = rw add-zero (Takes-trans one (resync-Takes (discard 1 q)));
  shrinks = λ c. omega arith;
}
  where
    one : Takes 1 1 p (discard 1 q)
    one = record {
      left = unfold discard in ap (drop 1) same;
      enough = h;
      counted = unfold discard in omega (arith, counted);
    }

waiting : (p : Parser) → Pass p (p, need_more)
waiting p = record {
  lost = 0;
  takes = record { left = refl; enough = omega arith; counted = omega arith };
  shrinks = λ c. cc;
}

frame-Pass :
    (p : Parser) (f : Frame) (n : ℕ) → decode p.held ≡ ok (f, n) → Pass p (on_decoded p (ok (f, n)))
unfolding on_decoded
frame-Pass p f n e =
    let inv = decode-inv p.held f n e in
    record {
      lost = 0;
      takes = record {
        left = ap (λ t. drop t p.held) (omega (arith, inv.1));
        enough = omega (arith, inv.1, inv.2);
        counted = omega arith;
      };
      shrinks = λ c. cc;
    }

on_decoded-Pass :
    (p : Parser) (d : Result FrameError (Frame × ℕ))
    → 10 ≤ length p.held
    → decode p.held ≡ d
    → Pass p (on_decoded p d)
unfolding on_decoded
on_decoded-Pass p (ok (f, n)) h e = frame-Pass p f n e
on_decoded-Pass p (err short_frame) h e = waiting p
on_decoded-Pass p (err e) h eq =
    rejected-Pass p (record p { stats = count_error e p.stats }) refl (unfold count_error in refl)
      (omega arith)

round-Pass : (p : Parser) → Pass p (round p)
unfolding round
round-Pass p = elim (Bool-cases (ltb (length p.held) 10)) [
  | inl few ↦ rw (few, round) (waiting p)
  | inr many ↦ elim (Bool-cases ((get_or p.held 0 0 != 0x05) || (get_or p.held 1 0 != 0x64))) [
    | inl noise ↦
        rw (many, noise, round)
          (record {
            lost = resync_length p.held;
            takes = rw add-zero (resync-Takes p);
            shrinks = λ c. resync_length-pos p.held noise (ground arith);
          })
    | inr start ↦ rw (many, start, round) (on_decoded-Pass p (decode p.held) (ground arith) refl)
  ]
]

-- Where the passes end: what was lost, what was taken, and that they end.
pub record Accounts (p : Parser) (r : Parser × Outcome) : Type 0 where
  pub lost : ℕ
  pub takes : Takes (lost + taken r.1) lost p r.0
  pub ends : r.1 ≢ again

regroup : (a b c : ℕ) → a + 0 + (b + c) ≡ a + b + c
regroup a b c = omega arith

then_on :
    (fuel : ℕ) (p p' : Parser) (o : Outcome)
    → round p ≡ (p', o)
    → Pass p (p', o)
    → (o ≡ again → Accounts p' (next_loop fuel p'))
    → Accounts p (next_loop (suc fuel) p)
unfolding next_loop
then_on fuel p p' (got f) e pass rest =
    rw e (record { lost = pass.lost; takes = pass.takes; ends = λ c. cc })
then_on fuel p p' need_more e pass rest =
    rw e (record { lost = pass.lost; takes = pass.takes; ends = λ c. cc })
then_on fuel p p' again e pass rest =
    let after = rest refl in
    rw e (record {
      lost = pass.lost + after.lost;
      takes =
          subst (λ n. Takes n (pass.lost + after.lost) p (next_loop fuel p').0)
            (regroup pass.lost after.lost (taken (next_loop fuel p').1))
            (Takes-trans pass.takes after.takes);
      ends = after.ends;
    })

next_loop-Accounts : (fuel : ℕ) (p : Parser) → length p.held < fuel → Accounts p (next_loop fuel p)
next_loop-Accounts zero p h = absurd (omega arith)
next_loop-Accounts (suc fuel) p h =
    let pass = round-Pass p in
    then_on fuel p (round p).0 (round p).1 refl pass λ more. next_loop-Accounts fuel (round p).0 (
      omega (
        arith,
        pass.shrinks more,
        pass.takes.enough,
        ap length pass.takes.left,
        length-drop (pass.lost + taken (round p).1) p.held,
      ))

-- From any octets `next` ends, with a frame or asking for more. It drops from the front of what it holds the octets
-- that it counts as discarded and then those of the frame, and no others.
pub next-Accounts : (p : Parser) → Accounts p (next p)
unfolding next
next-Accounts p = next_loop-Accounts (length p.held + 1) p (omega arith)

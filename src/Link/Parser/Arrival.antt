-- ===== src/Link/Parser/Arrival.antt =====
-- One frame behind noise is found by the loop of `Next`.
use go_dnp.Common.{
  ℕ, suc, ◌+◌, ◌-◌, ◌≤◌, false, ◌||◌, ◌!=◌, List, [], ◌∷◌, ◌++◌, length, drop, get_or, All,
  length-append, drop-length, some, ◌≡◌, ◌≢◌, refl, ap, ap₂, subst, ◌∙◌, arith, le→ltb-false,
}
use go_dnp.Link.Frame.{Header, Frame, frame_size, header_octets}
use go_dnp.Link.Frame.RoundTrip.{
  IsWire, frame_octets, with_len, length-frame_octets, decode-frame_octets,
}
use go_dnp.Link.Frame.Blocks.{drop-block}
use go_dnp.Link.Parser.{
  Parser, Outcome, got, again, resync_length, resync, index_delimiter, on_decoded, round, next_loop,
  next,
}
use go_dnp.Link.Parser.Progress.{resync-Takes}

-- An octet that cannot be taken for the start of a frame.
abbrev pub NoStart : ℕ → Type 0
NoStart b = b ≢ 0x05

index_delimiter-noise :
    (noise rest : List ℕ)
    → All NoStart noise
    → index_delimiter (noise ++ (0x05 ∷ 0x64 ∷ rest)) ≡ some (length noise)
unfolding index_delimiter
index_delimiter-noise [] rest h = refl
index_delimiter-noise (a ∷ []) rest h = ground arith
index_delimiter-noise (a ∷ b ∷ noise) rest h =
    ground (arith, index_delimiter-noise (b ∷ noise) rest h.1)

-- A frame was found behind `lost` octets, and `rest` is what follows it.
pub record Found (p : Parser) (f : Frame) (lost : ℕ) (rest : List ℕ) (r : Parser × Outcome)
    : Type 0 where
  pub outcome : r.1 ≡ got f
  pub left : r.0.held ≡ rest
  pub discarded : r.0.stats.bytes_discarded ≡ p.stats.bytes_discarded + lost
  pub counted : r.0.stats.frames_decoded ≡ p.stats.frames_decoded + 1

pub frame_size-ge : (n : ℕ) → 10 ≤ frame_size n
unfolding frame_size
frame_size-ge n = omega arith

module _ (h : Header) (payload rest : List ℕ) (w : IsWire h) (fits : length payload ≤ 250) where
  abbrev pub frame : Frame
  frame = record { header = with_len h (length payload); payload = payload }

  abbrev pub found : Parser → Parser
  found p = record p {
    read = p.read + frame_size (length payload);
    held = rest;
    stats = record p.stats { frames_decoded = p.stats.frames_decoded + 1 };
  }

  pub round-frame :
      (p : Parser) → p.held ≡ frame_octets h payload ++ rest → round p ≡ (found p, got frame)
  unfolding round on_decoded
  round-frame p e = rw (
    e,
    le→ltb-false (length (frame_octets h payload ++ rest)) 10 long,
    starts,
    decode-frame_octets h payload rest w fits,
    drop-block (frame_octets h payload) rest (length-frame_octets h payload),
  )
    where
      long : 10 ≤ length (frame_octets h payload ++ rest)
      long = unfold header_octets in omega arith

      starts :
          ((get_or (frame_octets h payload ++ rest) 0 0 != 0x05)
            || (get_or (frame_octets h payload ++ rest) 1 0 != 0x64))
          ≡ false
      starts = unfold header_octets in refl

  next_loop-frame :
      (fuel : ℕ) (p : Parser)
      → p.held ≡ frame_octets h payload ++ rest
      → Found p frame 0 rest (next_loop (suc fuel) p)
  unfolding next_loop
  next_loop-frame fuel p e =
      rw (round-frame p e)
        (record { outcome = refl; left = refl; discarded = omega arith; counted = omega arith })

  resync-noise :
      (noise : List ℕ) (p : Parser)
      → All NoStart noise
      → p.held ≡ noise ++ (frame_octets h payload ++ rest)
      → ((resync p).held ≡ frame_octets h payload ++ rest)
        × ((resync p).stats.bytes_discarded ≡ p.stats.bytes_discarded + length noise)
        × ((resync p).stats.frames_decoded ≡ p.stats.frames_decoded)
  resync-noise noise p q e =
      let takes = resync-Takes p in
      (
        takes.left ∙ ap₂ (λ n held. drop n held) all_noise e ∙ drop-length noise _,
        takes.counted ∙ ap (p.stats.bytes_discarded +◌) all_noise,
        unfold resync in ground arith,
      )
    where
      found_at : index_delimiter p.held ≡ some (length noise)
      found_at = unfold header_octets in rw e (index_delimiter-noise noise _ q)

      all_noise : resync_length p.held ≡ length noise
      all_noise = unfold resync_length in rw (found_at, resync_length)

  round-noise :
      (x : ℕ) (xs : List ℕ) (p : Parser)
      → NoStart x
      → p.held ≡ (x ∷ xs) ++ (frame_octets h payload ++ rest)
      → round p ≡ (resync p, again)
  unfolding round
  round-noise x xs p q e = ground (arith, long)
    where
      long : 10 ≤ length p.held
      long = omega (
        arith,
        ap length e,
        length-append (x ∷ xs) (frame_octets h payload ++ rest),
        length-append (frame_octets h payload) rest,
        length-frame_octets h payload,
        frame_size-ge (length payload),
      )

  -- Noise without a start octet in front of the frame costs one more pass.
  next_loop-noise :
      (fuel : ℕ) (noise : List ℕ) (p : Parser)
      → All NoStart noise
      → p.held ≡ noise ++ (frame_octets h payload ++ rest)
      → Found p frame (length noise) rest (next_loop (suc (suc fuel)) p)
  unfolding next_loop
  next_loop-noise fuel [] p q e = next_loop-frame (suc fuel) p e
  next_loop-noise fuel (x ∷ xs) p q e =
      rw (round-noise x xs p q.0 e) (lost (next_loop-frame fuel (resync p) after.0))
    where
      after :
          ((resync p).held ≡ frame_octets h payload ++ rest)
          × ((resync p).stats.bytes_discarded ≡ p.stats.bytes_discarded + length (x ∷ xs))
          × ((resync p).stats.frames_decoded ≡ p.stats.frames_decoded)
      after = resync-noise (x ∷ xs) p q e

      lost :
          {r : Parser × Outcome}
          → Found (resync p) frame 0 rest r
          → Found p frame (length (x ∷ xs)) rest r
      lost f = record {
        outcome = f.outcome;
        left = f.left;
        discarded = omega (arith, f.discarded, after.1);
        counted = omega (arith, f.counted, after.2);
      }

  pub next-noise :
      (noise : List ℕ) (p : Parser)
      → All NoStart noise
      → p.held ≡ noise ++ (frame_octets h payload ++ rest)
      → Found p frame (length noise) rest (next p)
  unfolding next
  next-noise noise p q e =
      subst (λ n. Found p frame (length noise) rest (next_loop n p)) fuel
        (next_loop-noise (length p.held - 1) noise p q e)
    where
      fuel : suc (suc (length p.held - 1)) ≡ length p.held + 1
      fuel = omega (
        arith,
        ap length e,
        length-append noise (frame_octets h payload ++ rest),
        length-append (frame_octets h payload) rest,
        length-frame_octets h payload,
        frame_size-ge (length payload),
      )

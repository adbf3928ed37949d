-- ===== src/Link/Parser/Whole.antt =====
-- `Next` at the front of a stream of frames that has arrived up to some octet.
use go_dnp.Common.{
  ℕ, ◌≤◌, ◌<◌, false, ◌||◌, ltb, ◌!=◌, List, ◌++◌, append_assoc, length, take, drop, take-append,
  take-length, take-append-drop, get_or, err, ◌≡◌, refl, sym, ap, subst, ◌∙◌, lt→ltb, Bool-cases,
  ltb-false→le, inl, inr, arith,
}
use native.Mathlib.Numerals.{add-one}
use go_dnp.Link.Frame.{Header, short_frame, decode, decode_header, frame_size, header_octets}
use go_dnp.Link.Frame.Blocks.{crc_octets, body_octets}
use go_dnp.Link.Frame.RoundTrip.{
  IsWire, frame_octets, decode_header-frame_octets, payload_len-with_len,
}
use go_dnp.Link.Parser.{Parser, got, need_more, next, next_loop, round, on_decoded}
use go_dnp.Link.Parser.Arrival.{found, frame, round-frame}

module _ (h : Header) (payload : List ℕ) (w : IsWire h) (fits : length payload ≤ 250) where
  -- A frame that has arrived whole is returned.
  pub next-whole :
      (rest : List ℕ) (p : Parser)
      → p.held ≡ frame_octets h payload ++ rest
      → next p ≡ (found h payload rest w fits p, got (frame h payload rest w fits))
  unfolding next next_loop
  next-whole rest p e = rw (add-one, round-frame h payload rest w fits p e) refl

  front : List ℕ
  front = header_octets h (length payload) ++ crc_octets (header_octets h (length payload))

  length-front : length front ≡ 10
  unfolding front header_octets
  length-front = omega arith

  -- What has arrived of a frame that is not whole begins with the header and its checksum.
  module _ (p : Parser) (future rest : List ℕ)
      (e : p.held ++ future ≡ frame_octets h payload ++ rest) where
    begins : 10 ≤ length p.held → p.held ≡ front ++ drop 10 p.held
    unfolding front
    begins long =
        sym (take-append-drop 10 p.held)
        ∙ ap (λ t. t ++ drop 10 p.held)
            (sym (take-append 10 p.held future long)
              ∙ ap (take 10) (e ∙ regroup)
              ∙ subst (λ k. take k (front ++ behind) ≡ front) length-front
                  (take-length front behind))
      where
        behind : List ℕ
        behind = body_octets (length payload) payload ++ rest

        regroup : frame_octets h payload ++ rest ≡ front ++ behind
        regroup =
            append_assoc (header_octets h (length payload)) _ rest
            ∙ ap (header_octets h (length payload) ++◌)
                (append_assoc (crc_octets (header_octets h (length payload))) _ rest)
            ∙ sym (append_assoc (header_octets h (length payload)) _ behind)

    decode-part :
        10 ≤ length p.held
        → length p.held < frame_size (length payload)
        → decode p.held ≡ err short_frame
    unfolding decode front
    decode-part long short =
        let octets = header_octets h (length payload) in
        let rest = drop 10 p.held in
        let found = begins long ∙ append_assoc octets (crc_octets octets) rest in
        rw
          (
            ap decode_header found ∙ decode_header-frame_octets h (length payload) rest w fits,
            payload_len-with_len h (length payload),
            lt→ltb (length p.held) (frame_size (length payload)) short,
          )
          refl

    -- One that has not arrived whole is waited for.
    pub next-part : length p.held < frame_size (length payload) → next p ≡ (p, need_more)
    unfolding next next_loop round on_decoded
    next-part short = elim (Bool-cases (ltb (length p.held) 10)) [
      | inl e ↦ rw (add-one, e) refl
      | inr e ↦
          let long = ltb-false→le (length p.held) 10 e in
          rw (add-one, e, starts long, decode-part long short) refl
    ]
      where
        starts :
            10 ≤ length p.held
            → ((get_or p.held 0 0 != 0x05) || (get_or p.held 1 0 != 0x64)) ≡ false
        starts long = rw (begins long) (unfold front header_octets in refl)

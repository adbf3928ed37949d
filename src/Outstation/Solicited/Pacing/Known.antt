-- ===== src/Outstation/Solicited/Pacing/Known.antt =====
-- The request that the session remembers, and how it knows it again. Outstation/session.go: isRepeatRequest.
use go_dnp.Common.{ℕ, Bool, true, ◌&&◌, ◌==◌, List, ◌≡◌, ◌↔◌, sym, ap, ap₂, ◌∙◌, arith}
use go_dnp.Stack.{Received}
use go_dnp.Outstation.Command.{bytes_equal}
use go_dnp.Outstation.Command.SelectOperate.{bytes_equal_sound, bytes_equal_refl}
use go_dnp.Outstation.Solicited.{Session}
use go_dnp.Outstation.Solicited.Requests.{is_repeat_request}

-- The request that is remembered: whether there is one, its source, its sequence number and its octets.
abbrev pub Key : Type 0
Key = Bool × ℕ × ℕ × List ℕ

abbrev pub key_of : Received → ℕ → Key
key_of r seq = (true, r.source, seq, r.fragment)

module _ {D V W : Type 0} where
  abbrev pub key : Session D V W → Key
  key s = (s.last.valid, s.last.source, s.last.seq, s.last.frag)

  -- A session that remembers a request.
  pub record Knows (k : Key) (s : Session D V W) : Type 0 where
    pub same : key s ≡ k

  -- A request that is remembered is known again.
  pub remembered-repeats :
      (s : Session D V W) (r : Received) (seq : ℕ)
      → Knows (key_of r seq) s
      → is_repeat_request s r seq ≡ true
  unfolding is_repeat_request
  remembered-repeats s r seq h =
      ap (λ k. k.0 && (r.source == k.1) && (seq == k.2) && bytes_equal r.fragment k.3) h.same ∙ same
    where
      same :
          (true && (r.source == r.source) && (seq == seq) && bytes_equal r.fragment r.fragment)
          ≡ true
      same = ground (arith, bytes_equal_refl r.fragment)

  -- A request is known again only if it is the one that is remembered.
  pub repeat-Knows :
      (s : Session D V W) (r : Received) (seq : ℕ)
      → is_repeat_request s r seq ≡ true
      → Knows (key_of r seq) s
  unfolding is_repeat_request
  repeat-Knows s r seq e =
      let octets : bytes_equal r.fragment s.last.frag ≡ true = ground (arith, e) in
      let valid : s.last.valid ≡ true = ground (arith, e) in
      let source : s.last.source ≡ r.source = ground (arith, e) in
      let number : s.last.seq ≡ seq = ground (arith, e) in
      record {
        same =
            ap₂ (λ v a. (v, a, s.last.seq, s.last.frag)) valid source
            ∙ ap₂ (λ n f. (true, r.source, n, f)) number
                (sym (bytes_equal_sound r.fragment s.last.frag octets));
      }

  -- Exactly the request that is remembered is known again.
  pub known-repeats :
      (s : Session D V W) (r r' : Received) (seq seq' : ℕ)
      → Knows (key_of r seq) s
      → (is_repeat_request s r' seq' ≡ true)
        ↔ ((r'.source ≡ r.source) × (seq' ≡ seq) × (r'.fragment ≡ r.fragment))
  known-repeats s r r' seq seq' h = (
    (λ e.
        let same = sym (repeat-Knows s r' seq' e).same ∙ h.same in
        (ap (λ k. k.1) same, ap (λ k. k.2) same, ap (λ k. k.3) same)),
    (λ e. remembered-repeats s r' seq' (record {
      same =
          h.same
          ∙ ap₂ (λ a n. (true, a, n, r.fragment)) (sym (e.0)) (sym (e.1))
          ∙ ap (λ f. (true, r'.source, seq', f)) (sym (e.2));
    })),
  )

-- ===== src/Outstation/Solicited/Series/Rounds.antt =====
-- One round of an exchange: a fragment goes out, and the master confirms what is awaited.
use go_dnp.Common.{
  ℕ, ◌+◌, ◌%◌, Bool, true, false, not, ◌||◌, leb, ◌==◌, if◌then◌else◌, List, [], ◌∷◌, ◌++◌, length,
  get_or, drop, ◌≡◌, refl, ap, ◌∙◌, arith,
}
use go_dnp.App.FuncCode.{func_response}
use go_dnp.App.Header.{Control, append_header}
use go_dnp.Outstation.Solicited.Series.{
  Notes, notes, recorder, notes-append_header, get_or-drop, length-front, current_iin-keeps, round,
  confirms_last, advance-sends,
}
use go_dnp.Outstation.Solicited.{
  Device, Session, current_iin, finish_response, on_confirm, needs_confirm, next_control, send_next,
  advance_response,
}

module _ {D V : Type 0} where
  -- The control octet of the next fragment, if some bodies are left.
  pub next_control-Control :
      (s : Session D V Notes) (b : List ℕ) (bs : List (List ℕ)) (final : Bool)
      → drop s.pending_index s.pending_bodies ≡ b ∷ bs
      → (length bs == 0) ≡ final
      → next_control recorder s ≡ record {
        fir = s.pending_index == 0;
        fin = final;
        con = not final || confirms_last s;
        uns = false;
        seq = (s.pending_seq + s.pending_index) % 16;
      }
  unfolding next_control needs_confirm
  next_control-Control s b bs final h e =
      let n = length-front s.pending_index s.pending_bodies b bs h in ground (arith, n, e)

  pub if_true : (b : Bool) (x y : Session D V Notes) → b ≡ true → (if b then x else y) ≡ x
  if_true true x y h = refl
  if_true false x y h = absurd (ground (arith, h))

  pub if_false : (b : Bool) (x y : Session D V Notes) → b ≡ false → (if b then x else y) ≡ y
  if_false true x y h = absurd (ground (arith, h))
  if_false false x y h = refl

  pub on_confirm-awaited :
      (q : Session D V Notes)
      → q.awaiting_confirm ≡ true
      → (let q' = record q { awaiting_confirm = false } in
          on_confirm q q.confirm_seq
          ≡ (if leb (length q.pending_bodies) q.pending_index then finish_response q' else q'))
  unfolding on_confirm
  on_confirm-awaited q h =
      if_false (not q.awaiting_confirm || not (q.confirm_seq == q.confirm_seq)) _ _
        (ground (arith, h))

  pub on_confirm-idle :
      (q : Session D V Notes) (seq : ℕ) → q.awaiting_confirm ≡ false → on_confirm q seq ≡ q
  unfolding on_confirm
  on_confirm-idle q seq h =
      if_true (not q.awaiting_confirm || not (seq == q.confirm_seq)) _ _ (ground (arith, h))

  -- The session when a fragment has gone out, and when it waits for the confirmation.
  abbrev pub gone_out : Session D V Notes → Notes → Device D V → Session D V Notes
  gone_out s w dev = record s { line = w; dev = dev; pending_index = s.pending_index + 1 }

  abbrev pub waiting : Session D V Notes → Control → Notes → Device D V → ℕ → Session D V Notes
  waiting s c w dev now = record (gone_out s w dev) {
    awaiting_confirm = true;
    confirm_seq = c.seq;
    confirm_deadline = now + s.cfg.confirm_timeout;
  }

  -- The session that has been confirmed.
  abbrev pub settled : Session D V Notes → Control → Notes → Device D V → ℕ → Session D V Notes
  settled s c w dev now = record (waiting s c w dev now) { awaiting_confirm = false }

  pub record Going (s : Session D V Notes) (now : ℕ) (b : List ℕ) : Type 0 where
    pub c : Control
    pub w : Notes
    pub dev : Device D V
    pub sends :
        (advance_response recorder s now).0
        ≡ (if c.con then waiting s c w dev now else finish_response (gone_out s w dev))
    pub goes : round s now ≡ (
        let q = if c.con then waiting s c w dev now else finish_response (gone_out s w dev) in
        on_confirm q q.confirm_seq)
    pub noted : w ≡ s.line ++ ((c, b) ∷ [])
    pub control_is : c ≡ next_control recorder s
    pub events : dev.events ≡ s.dev.events
    pub iin : dev.iin ≡ s.dev.iin

  pub round-Going :
      (s : Session D V Notes) (now : ℕ) (b : List ℕ) (bs : List (List ℕ))
      → s.awaiting_confirm ≡ false
      → drop s.pending_index s.pending_bodies ≡ b ∷ bs
      → Going s now b
  unfolding round send_next next_control
  round-Going s now b bs h d =
      let c = next_control recorder s in
      let r = current_iin s.cfg s.dev s.indications now in
      let keeps = current_iin-keeps s.cfg s.dev s.indications now in
      let frag =
        append_header [] (record { control = c; func = func_response; iin = r.1 })
        ++ get_or s.pending_bodies s.pending_index [] in
      record {
        c = c;
        w = s.line ++ (notes frag ∷ []);
        dev = r.0;
        sends =
            ap (λ x. x.0)
              (advance-sends s now h
                (omega (arith, length-front s.pending_index s.pending_bodies b bs d)));
        goes =
            ap (λ x. on_confirm x.0 x.0.confirm_seq)
              (advance-sends s now h
                (omega (arith, length-front s.pending_index s.pending_bodies b bs d)));
        noted =
            ap (λ x. s.line ++ (x ∷ []))
              (notes-append_header c r.1 (get_or s.pending_bodies s.pending_index []) (omega arith)
                ∙ ap (λ x. (c, x)) (get_or-drop s.pending_index s.pending_bodies b bs d));
        control_is = refl;
        events = keeps.0;
        iin = keeps.1;
      }

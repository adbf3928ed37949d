-- ===== src/Outstation/Solicited/Series/Steps.antt =====
-- What a round leaves behind: more fragments to send, or a response that is over.
use go_dnp.Common.{
  ℕ, ◌+◌, ◌%◌, Bool, true, false, ◌&&◌, ◌||◌, leb, ◌==◌, if◌then◌else◌, List, [], ◌∷◌, ◌++◌, length,
  drop, ◌≡◌, refl, ap, ap₂, ◌∙◌, arith,
}
use go_dnp.App.Iin
use go_dnp.App.Iin.{iin_broadcast}
use go_dnp.App.Header.{Control}
use go_dnp.Outstation.EventBuffer
use go_dnp.Outstation.EventBuffer.{EventBuffer}
use go_dnp.Outstation.Solicited.Series.{
  Notes, series, length-front, after-front, round, confirms_last, Sent, Done,
}
use go_dnp.Outstation.Solicited.{Session, finish_response, on_confirm, needs_confirm}
use go_dnp.Outstation.Solicited.Series.Rounds.{
  next_control-Control, if_true, if_false, on_confirm-awaited, on_confirm-idle, gone_out, waiting,
  settled, Going, round-Going,
}

pub rest_at :
    (xs ys : List (List ℕ)) (i j : ℕ) (b : List ℕ) (bs : List (List ℕ))
    → ys ≡ xs
    → j ≡ i + 1
    → drop i xs ≡ b ∷ bs
    → drop j ys ≡ bs
rest_at xs ys i j b bs e k d = ap₂ (λ ys j. drop j ys) e k ∙ after-front i xs b bs d

module _ {D V : Type 0} where
  -- A round with a fragment that asks for a confirmation.
  round-confirmed :
      (s : Session D V Notes) (now : ℕ) (b : List ℕ) (g : Going s now b) (f : Bool)
      → g.c.con ≡ true
      → leb (length s.pending_bodies) (s.pending_index + 1) ≡ f
      → (let q = settled s g.c g.w g.dev now in round s now ≡ (if f then finish_response q else q))
  round-confirmed s now b g f h e =
      g.goes
      ∙ ap (λ q. on_confirm q q.confirm_seq) (if_true g.c.con (waiting s g.c g.w g.dev now) _ h)
      ∙ on_confirm-awaited (waiting s g.c g.w g.dev now) refl
      ∙ ap
          (λ f.
            if f
            then finish_response (settled s g.c g.w g.dev now)
            else settled s g.c g.w g.dev now)
          e

  pub round-Sent :
      (s : Session D V Notes) (now : ℕ) (b c : List ℕ) (bs : List (List ℕ))
      → s.awaiting_confirm ≡ false
      → drop s.pending_index s.pending_bodies ≡ b ∷ c ∷ bs
      → Sent s (round s now) (
        record {
          fir = s.pending_index == 0;
          fin = false;
          con = true;
          uns = false;
          seq = (s.pending_seq + s.pending_index) % 16;
        },
        b,
      )
  unfolding needs_confirm
  round-Sent s now b c bs h d =
      let g = round-Going s now b (c ∷ bs) h d in
      let k = g.control_is ∙ next_control-Control s b (c ∷ bs) false d (more bs) in
      let q = settled s g.c g.w g.dev now in
      let e : round s now ≡ q = round-confirmed s now b g false (ap (λ c. c.con) k) (short s d) in
      record {
        line = ap (λ q. q.line) e ∙ g.noted ∙ ap (λ c. s.line ++ ((c, b) ∷ [])) k;
        free = ap (λ q. q.awaiting_confirm) e;
        seq = ap (λ q. q.pending_seq) e;
        last =
            ap (λ q. confirms_last q) e
            ∙ ap (λ i. s.pending_has_events || (Iin.has i iin_broadcast && s.broadcast_confirm))
                g.iin;
        has = ap (λ q. q.pending_has_events) e;
        bodies = ap (λ q. q.pending_bodies) e;
        index = ap (λ q. q.pending_index) e;
        events = ap (λ q. q.dev.events) e ∙ g.events;
      }
    where
      more : (bs : List (List ℕ)) → (length (c ∷ bs) == 0) ≡ false
      more bs = ground arith

      short :
          (s : Session D V Notes)
          → drop s.pending_index s.pending_bodies ≡ b ∷ c ∷ bs
          → leb (length s.pending_bodies) (s.pending_index + 1) ≡ false
      short s d = ground (arith, length-front s.pending_index s.pending_bodies b (c ∷ bs) d)

  pub round-Done :
      (s : Session D V Notes) (now : ℕ) (b : List ℕ)
      → s.awaiting_confirm ≡ false
      → drop s.pending_index s.pending_bodies ≡ b ∷ []
      → Done s (round s now) (series s.pending_seq (confirms_last s) s.pending_index (b ∷ []))
  unfolding series finish_response
  round-Done s now b h d =
      let g = round-Going s now b [] h d in
      let k = g.control_is ∙ next_control-Control s b [] true d refl in choose g k g.c.con refl
    where
      over : leb (length s.pending_bodies) (s.pending_index + 1) ≡ true
      over = ground (arith, length-front s.pending_index s.pending_bodies b [] d)

      last : Control
      last = record {
        fir = s.pending_index == 0;
        fin = true;
        con = confirms_last s;
        uns = false;
        seq = (s.pending_seq + s.pending_index) % 16;
      }

      ended :
          (g : Going s now b) (q : Session D V Notes)
          → g.c ≡ last
          → round s now ≡ finish_response q
          → q.line ≡ g.w
          → q.awaiting_confirm ≡ false
          → q.pending_has_events ≡ s.pending_has_events
          → q.dev.events ≡ g.dev.events
          → Done s (round s now) ((last, b) ∷ [])
      ended g q k e l f p v = record {
        line = ap (λ q. q.line) e ∙ l ∙ g.noted ∙ ap (λ c. s.line ++ ((c, b) ∷ [])) k;
        free = ap (λ q. q.awaiting_confirm) e ∙ f;
        bodies = ap (λ q. q.pending_bodies) e;
        events =
            ap (λ q. q.dev.events) e
            ∙ ap₂ (λ has es. if has then (EventBuffer.confirm es).0 else es) p (v ∙ g.events);
      }

      choose :
          (g : Going s now b)
          → g.c ≡ last
          → (con : Bool) → g.c.con ≡ con
          → Done s (round s now) ((last, b) ∷ [])
      choose g k true e =
          ended g (settled s g.c g.w g.dev now) k (round-confirmed s now b g true e over) refl refl
            refl refl
      choose g k false e =
          ended g (gone_out s g.w g.dev) k
            (g.goes
              ∙ ap (λ q. on_confirm q q.confirm_seq)
                  (if_false g.c.con (waiting s g.c g.w g.dev now)
                    (finish_response (gone_out s g.w g.dev)) e)
              ∙ on_confirm-idle (finish_response (gone_out s g.w g.dev)) _ h)
            refl h refl refl

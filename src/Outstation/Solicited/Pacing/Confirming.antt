-- ===== src/Outstation/Solicited/Pacing/Confirming.antt =====
-- What a confirmation does to the events, and a request that is repeated.
use go_dnp.Common.{
  ℕ, ◌+◌, Bool, true, false, not, ◌&&◌, ◌||◌, leb, ◌==◌, if◌then◌else◌, [], length, ◌≡◌, ◌⊎◌, ◌↔◌,
  inl, inr, Bool-cases, refl, subst, sym, ap, ◌∙◌, arith,
}
use go_dnp.App.FuncCode.{func_confirm}
use go_dnp.App.Fragment.{Fragment}
use go_dnp.Stack.{Received}
use go_dnp.Outstation.EventBuffer
use go_dnp.Outstation.EventBuffer.Capacity.{confirms, step, removed, step-Accounted}
use go_dnp.Outstation.Unsolicited.{Reporter}
use go_dnp.Outstation.Solicited.{Session, Line, finish_response, on_confirm}
use go_dnp.Outstation.Solicited.Requests.{is_repeat_request, Handlers, on_request}
use go_dnp.Outstation.Solicited.Pacing.{IsSound, done-IsSound}
use go_dnp.Outstation.Solicited.Pacing.Repeating.{
  is_turned_away, looked_up, gated, gated-shut, gated-open, on_request-gated, looked_up-Knows,
  looked_up-replayed,
}
use go_dnp.Outstation.Solicited.Pacing.Known.{key_of, Knows, known-repeats}

module _ {D V W : Type 0} where
  -- How many events a confirmation removes: those selected, if it is the one awaited, no fragment is left to
  -- send, and the response carries events.
  unfoldable pub removed_by : Session D V W → ℕ → ℕ
  removed_by s seq =
      let whole = leb (length s.pending_bodies) s.pending_index in
      if s.awaiting_confirm && (seq == s.confirm_seq) && whole && s.pending_has_events
      then (EventBuffer.confirm s.dev.events).1
      else 0

  -- A confirmation of a solicited response removes events only if it is the awaited one, all fragments of the
  -- response have been sent, and the response carries events; then it removes the selected ones. Otherwise
  -- every event stays accounted for as before.
  pub on_confirm-IsSound :
      (gone : ℕ) (s : Session D V W) (seq : ℕ)
      → IsSound gone s
      → IsSound (gone + removed_by s seq) (on_confirm s seq)
  unfolding on_confirm removed_by finish_response step removed
  on_confirm-IsSound gone s seq h =
      choose s.awaiting_confirm (seq == s.confirm_seq)
        (leb (length s.pending_bodies) s.pending_index) s.pending_has_events refl
    where
      q : Session D V W
      q = record s { awaiting_confirm = false }

      ended : Bool → Session D V W
      ended has = record q {
        pending_bodies = [];
        pending_index = 0;
        dev = record q.dev {
          events = if has then (EventBuffer.confirm q.dev.events).0 else q.dev.events;
          iin = (finish_response q).dev.iin;
        };
      }

      same : gone ≡ gone + 0
      same = omega arith

      unchanged : IsSound (gone + 0) s
      unchanged = subst (λ n. IsSound n s) same h

      choose :
          (a b f has : Bool)
          → leb (length s.pending_bodies) s.pending_index ≡ f
          → IsSound
              (gone + (if a && b && f && has then (EventBuffer.confirm s.dev.events).1 else 0))
              (if not a || not b then s else if f then ended has else q)
      choose false b f has e = unchanged
      choose true false f has e = unchanged
      choose true true false has e = record {
        paced = record { bounded = h.paced.bounded; waits = inl (ground (arith, e)) };
        events = unchanged.events;
      }
      choose true true true false e =
          done-IsSound (gone + 0) (ended false) refl refl unchanged.events
      choose true true true true e =
          done-IsSound (gone + (EventBuffer.confirm s.dev.events).1) (ended true) refl refl
            (step-Accounted s.dev.events confirms gone h.events)

module _ {D V W R : Type 0} (line : Line R W) (out : Reporter W V R) (r : Received)
    (f : Fragment) where
  repeated :
      (acts acts' : Handlers D V R) (q : Session D V W) (now : ℕ)
      → is_turned_away f ≡ true ⊎ Knows (key_of r f.header.control.seq) q
      → (f.header.func == func_confirm) ≡ false
      → on_request line acts out q r f now ≡ on_request line acts' out q r f now
  repeated acts acts' q now known c =
      on_request-gated line out r f acts q now
      ∙ elim known [
        | inl h ↦
            gated-shut line out r f q now (looked_up line out r f acts q now)
              (looked_up line out r f acts' q now) h
        | inr k ↦ ap (gated line out r f q now) (
            looked_up-replayed line out r f acts q now c k
            ∙ sym (looked_up-replayed line out r f acts' q now c k))
      ]
      ∙ sym (on_request-gated line out r f acts' q now)

  -- A request is turned away, or is remembered by what comes of it.
  remembered :
      (acts : Handlers D V R) (s : Session D V W) (now : ℕ)
      → (f.header.func == func_confirm) ≡ false
      → is_turned_away f ≡ true
        ⊎ Knows (key_of r f.header.control.seq) (on_request line acts out s r f now).0
  remembered acts s now c = elim (Bool-cases (is_turned_away f)) [
    | inl h ↦ inl h
    | inr h ↦
        let first : on_request line acts out s r f now ≡ looked_up line out r f acts s now =
          on_request-gated line out r f acts s now
          ∙ gated-open line out r f s now (looked_up line out r f acts s now) h in
        inr (
          subst (λ x. Knows (key_of r f.header.control.seq) x.0) (sym first)
            (looked_up-Knows line out r f acts s now c))
  ]

  -- A request other than a confirmation that comes twice in a row, from the same source and in the same octets:
  -- whatever became of it at first, the second time no handler acts on it. What becomes of the session, and
  -- what is sent, is then the same whatever the handlers would do. And unless the request was turned away, what
  -- counts from then on as a repeat is exactly what has its source, its sequence number and its octets.
  pub on_request-repeat :
      (acts acts' : Handlers D V R) (s : Session D V W) (now later : ℕ) (r' : Received) (seq' : ℕ)
      → (f.header.func == func_confirm) ≡ false
      → (let q = (on_request line acts out s r f now).0 in
          (on_request line acts out q r f later ≡ on_request line acts' out q r f later)
          × (is_turned_away f ≡ true
              ⊎ ((is_repeat_request q r' seq' ≡ true) ↔ (
                  (r'.source ≡ r.source)
                  × (seq' ≡ f.header.control.seq)
                  × (r'.fragment ≡ r.fragment)))))
  on_request-repeat acts acts' s now later r' seq' c =
      let q = (on_request line acts out s r f now).0 in
      let known = remembered acts s now c in
      (
        repeated acts acts' q later known c,
        elim known [
          | inl h ↦ inl h
          | inr k ↦ inr (known-repeats q r r' f.header.control.seq seq' k)
        ],
      )

-- ===== src/Link/Exchange/Steps.antt =====
-- Every step leads from a stage of the exchange to a stage of it.
use go_dnp.Common.{
  ℕ, ◌≤◌, ◌<◌, false, none, some, List, ◌∷◌, length, ◌≡◌, inl, inr, refl, sym, ◌∙◌, ltb, ltb→lt,
  arith, Bool-cases, subst,
}
use go_dnp.Link.Frame.{Frame}
use go_dnp.Link.Primary.{idle, send, on_frame, on_timeout, frame}
use go_dnp.Link.Secondary.{
  Secondary, reply, func_ack, func_reset_link_states, func_confirmed_user_data,
}
use go_dnp.Link.Secondary
use go_dnp.Link.Secondary.Peer.{on_frame-reset_frame, on_frame-new_data, on_frame-old_data}
use go_dnp.Link.Primary.Cases.{
  send-linked, send-unlinked, on_frame-reset_ack, on_frame-data_ack, on_timeout_again,
  on_timeout_last, on_timeout_idle,
}
use go_dnp.Link.Exchange.Stages.{
  Explains, once, never, unheard, going, coming, Settings, Stage, resting, resetting, offering,
  accepted, forward_eq, back_eq, Line-lose_forward, Line-lose_back,
}
use go_dnp.Link.Exchange.{
  System, completed, abandoned, react, arrived, Step, submit, arrive, lose_forward, answer,
  lose_back, expire,
}

submit-Stage :
    (y : System) (payload : List ℕ)
    → Settings y
    → y.pri.state ≡ idle
    → y.pri.flow_control ≡ false
    → 0 < length payload
    → length payload ≤ 250
    → Stage y
    → Stage (react y (send y.pri payload).0)
unfolding react
submit-Stage y payload c i free pos fits (resting st fw bk up ex) =
    elim (Bool-cases y.pri.link_up) [
      | inl linked ↦ rw (send-linked y.pri payload i free fits c.confirms linked) (
          offering refl pos (unfold frame in refl) bk (going refl bk) linked (up linked).0
            (up linked).1 ex)
      | inr down ↦
          rw (send-unlinked y.pri payload i free fits c.confirms down)
            (resetting refl pos (unfold frame in refl) (going refl bk) (inl bk) ex)
    ]
submit-Stage y payload c i free pos fits (resetting st q l ln ack ex) = cc
submit-Stage y payload c i free pos fits (offering st q l b ln u r e ex) = cc
submit-Stage y payload c i free pos fits (accepted ps st q l ln u r e dl ex) = cc

arrive-Stage :
    (y : System) (f : Frame)
    → Settings y
    → y.forward ≡ some f
    → Stage y
    → Stage (arrived y (Secondary.on_frame y.sec f))
unfolding arrived
arrive-Stage y f c e (resting st fw bk up ex) = cc
arrive-Stage y f c e (resetting st q l ln ack ex) =
    rw (forward_eq y f ln e ∙ l, on_frame-reset_frame y.sec y.pri c.single)
      (resetting st q l (coming refl (unfold reply in refl)) (inr (refl, refl)) ex)
arrive-Stage y f c e (offering st q l b ln u r fcb ex) =
    rw
      (
        forward_eq y f ln e ∙ l,
        on_frame-new_data y.sec y.pri c.single y.pri.pending q r y.pri.fcb fcb,
      )
      (accepted y.delivered st q l (coming refl (unfold reply in refl)) u r refl refl ex)
arrive-Stage y f c e (accepted ps st q l ln u r fcb dl ex) =
    rw
      (
        forward_eq y f ln e ∙ l,
        on_frame-old_data y.sec y.pri c.single y.pri.pending q r y.pri.fcb fcb,
      )
      (accepted ps st q l (coming refl (unfold reply in refl)) u r fcb dl ex)

answer-Stage :
    (y : System) (r : Frame)
    → Settings y
    → y.back ≡ some r
    → Stage y
    → Stage (react (record y { back = none }) (on_frame y.pri r))
unfolding react
answer-Stage y r c e (resting st fw bk up ex) = cc
answer-Stage y r c e (resetting st q l ln (inl none_back) ex) = cc
answer-Stage y r c e (resetting st q l ln (inr (reset, fcb)) ex) =
    let back = back_eq y r ln e in
    rw (back.0, on_frame-reset_ack y.pri y.sec y.pri.local_addr st)
      (offering refl q (unfold frame in refl) refl (going refl refl) refl reset fcb ex)
answer-Stage y r c e (offering st q l b ln u rs fcb ex) = cc
answer-Stage y r c e (accepted ps st q l ln u rs fcb dl ex) =
    let back = back_eq y r ln e in
    rw (back.0, on_frame-data_ack y.pri y.sec y.pri.local_addr st)
      (resting refl back.1 refl (λ linked. (rs, fcb))
        (subst (Explains (completed y.pri.pending ∷ y.outcomes)) (sym dl) (once y.pri.pending ex)))

repeat :
    (y : System)
    → y.forward ≡ none
    → y.back ≡ none
    → y.pri.retries < y.pri.max_retries
    → Stage y
    → Stage (react y (on_timeout y.pri))
unfolding react
repeat y fw bk more (resting st fw' bk' up ex) =
    rw (on_timeout_idle y.pri st) (resting st fw bk up ex)
repeat y fw bk more (resetting st q l ln ack ex) =
    rw (on_timeout_again y.pri (λ i. cc) more)
      (resetting st q (l ∙ unfold frame in refl) (going refl bk) ack ex)
repeat y fw bk more (offering st q l b ln u r fcb ex) =
    rw (on_timeout_again y.pri (λ i. cc) more)
      (offering st q (l ∙ unfold frame in refl) b (going refl bk) u r fcb ex)
repeat y fw bk more (accepted ps st q l ln u r fcb dl ex) =
    rw (on_timeout_again y.pri (λ i. cc) more)
      (accepted ps st q (l ∙ unfold frame in refl) (going refl bk) u r fcb dl ex)

give_up :
    (y : System)
    → y.forward ≡ none
    → y.back ≡ none
    → y.pri.max_retries ≤ y.pri.retries
    → Stage y
    → Stage (react y (on_timeout y.pri))
unfolding react
give_up y fw bk last (resting st fw' bk' up ex) =
    rw (on_timeout_idle y.pri st) (resting st fw bk up ex)
give_up y fw bk last (resetting st q l ln ack ex) =
    rw (on_timeout_last y.pri (λ i. cc) last)
      (resting refl fw bk (λ up. cc) (never y.pri.pending ex))
give_up y fw bk last (offering st q l b ln u r fcb ex) =
    rw (on_timeout_last y.pri (λ i. cc) last)
      (resting refl fw bk (λ up. cc) (never y.pri.pending ex))
give_up y fw bk last (accepted ps st q l ln u r fcb dl ex) =
    rw (on_timeout_last y.pri (λ i. cc) last) (
      resting refl fw bk (λ up. cc)
        (subst (Explains (abandoned y.pri.pending ∷ y.outcomes)) (sym dl)
          (unheard y.pri.pending ex)))

lose_forward-Stage : (y : System) → Stage y → Stage (record y { forward = none })
lose_forward-Stage y (resting st fw bk up ex) = resting st refl bk up ex
lose_forward-Stage y (resetting st q l ln ack ex) = resetting st q l (Line-lose_forward y ln) ack ex
lose_forward-Stage y (offering st q l b ln u r fcb ex) =
    offering st q l b (Line-lose_forward y ln) u r fcb ex
lose_forward-Stage y (accepted ps st q l ln u r fcb dl ex) =
    accepted ps st q l (Line-lose_forward y ln) u r fcb dl ex

lose_back-Stage : (y : System) → Stage y → Stage (record y { back = none })
lose_back-Stage y (resting st fw bk up ex) = resting st fw refl up ex
lose_back-Stage y (resetting st q l ln ack ex) =
    resetting st q l (Line-lose_back y ln) (inl refl) ex
lose_back-Stage y (offering st q l b ln u r fcb ex) =
    offering st q l refl (Line-lose_back y ln) u r fcb ex
lose_back-Stage y (accepted ps st q l ln u r fcb dl ex) =
    accepted ps st q l (Line-lose_back y ln) u r fcb dl ex

-- On a timeout the frame goes again, or the exchange is given up.
expire-Stage :
    (y : System)
    → Settings y
    → y.forward ≡ none
    → y.back ≡ none
    → Stage y
    → Stage (react y (on_timeout y.pri))
expire-Stage y c fw bk stage = elim (Bool-cases (ltb y.pri.retries y.pri.max_retries)) [
  | inl more ↦ repeat y fw bk (ltb→lt y.pri.retries y.pri.max_retries more) stage
  | inr last ↦ give_up y fw bk (ground arith) stage
]

pub Step-Stage : {y z : System} → Step y z → Settings y → Stage y → Stage z
Step-Stage (submit payload i free pos fits) c s = submit-Stage _ payload c i free pos fits s
Step-Stage (arrive f e) c s = arrive-Stage _ f c e s
Step-Stage lose_forward c s = lose_forward-Stage _ s
Step-Stage (answer r e) c s = answer-Stage _ r c e s
Step-Stage lose_back c s = lose_back-Stage _ s
Step-Stage (expire fw bk) c s = expire-Stage _ c fw bk s

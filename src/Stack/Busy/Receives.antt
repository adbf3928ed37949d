-- ===== src/Stack/Busy/Receives.antt =====
-- What a received frame keeps.
use go_dnp.Common.{
  ℕ, Bool, true, false, not, ◌&&◌, ◌||◌, ◌!=◌, if◌then◌else◌, Option, none, some, List, ◌≡◌, arith,
}
use go_dnp.Link.Address.{self_address, is_valid_source}
use go_dnp.Link.Frame.{Frame}
use go_dnp.Link.Primary
use go_dnp.Link.Primary.{Primary, Action, SendError, is_busy}
use go_dnp.Link.Secondary
use go_dnp.Link.Secondary.{Secondary, SecResult}
use go_dnp.Transport.Reassembler
use go_dnp.Stack.{Stack, Error, Writer, Received}
use go_dnp.Stack.Sending.{after_reply}
use go_dnp.Stack.Receiving.{
  report, deliver, reply_out, unless_error, on_request, on_reply, on_frame,
}
use go_dnp.Stack.Busy.{Agrees, on_frame-Left, on_frame-idle}
use go_dnp.Stack.Busy.Sends.{choose, after_reply-Agrees}

module _ {W : Type 0} (out : Writer W) where
  on_reply-Agrees :
      (fn : Stack × W → Received → Stack × W) (s : Stack) (w : W) (f : Frame)
      → Agrees s
      → (on_reply out fn s w f).1 ≡ none
      → Agrees (on_reply out fn s w f).0.0
  unfolding on_reply
  on_reply-Agrees fn s w f a e =
      let src = f.header.src in
      let q = if src != s.dest then record s { dest = src } else s in
      let r = Primary.on_frame q.pri f in
      choose {W = W} ((src != s.dest) && ((s.dest != self_address) || not (is_valid_source src)))
        ((s, w), none) (after_reply out (record q { pri = r.0 }) w (r.1, r.2)) (λ _. a)
        (λ c.
          after_reply-Agrees out (record q { pri = r.0 }) w r.1 r.2 (is_busy q.pri)
            (same (src != s.dest)) (on_frame-Left q.pri f) (on_frame-idle q.pri f))
        e
    where
      same : (b : Bool) → Agrees (if b then record s { dest = f.header.src } else s)
      same true = a
      same false = a

  -- The caller's function may use the stack, and keeps the agreement.
  module _ (fn : Stack × W → Received → Stack × W)
      (keeps : (s : Stack) (w : W) (m : Received) → Agrees s → Agrees (fn (s, w) m).0) where
    report-Agrees :
        (s : Stack) (w : W) (f : Frame) (res : Option (List ℕ))
        → Agrees s
        → Agrees (report out fn (s, w) f res).0
    report-Agrees s w f none a = a
    report-Agrees s w f (some fragment) a = keeps s w _ a

    deliver-Agrees :
        (s : Stack) (w : W) (f : Frame) (payload : Option (List ℕ))
        → Agrees s
        → Agrees (deliver out fn (s, w) f payload).0
    unfolding deliver
    deliver-Agrees s w f none a = a
    deliver-Agrees s w f (some payload) a =
        let (reasm, res) = Reassembler.accept s.reasm payload in
        report-Agrees (record s { reasm = reasm }) w f res.fragment a

    on_request-Agrees :
        (s : Stack) (w : W) (f : Frame)
        → Agrees s
        → (on_request out fn s w f).1 ≡ none
        → Agrees (on_request out fn s w f).0.0
    unfolding on_request
    on_request-Agrees s w f a e = told (reply_out out fn w res.reply) e
      where
        sec : Secondary
        sec = (Secondary.on_frame s.sec f).0

        res : SecResult
        res = (Secondary.on_frame s.sec f).1

        told :
            (sent : W × Option Error)
            → (unless_error out fn
                (record s { sec = sec }, sent.0)
                (λ sw. deliver out fn sw f res.payload)
                sent.1).1
              ≡ none
            → Agrees
                (unless_error out fn
                  (record s { sec = sec }, sent.0)
                  (λ sw. deliver out fn sw f res.payload)
                  sent.1).0.0
        told (w', none) e = deliver-Agrees (record s { sec = sec }) w' f res.payload a
        told (w', some x) e = a

    pub on_frame-Agrees :
        (s : Stack) (w : W) (f : Frame)
        → Agrees s
        → (on_frame out fn s w f).1 ≡ none
        → Agrees (on_frame out fn s w f).0.0
    unfolding on_frame
    on_frame-Agrees s w f a e =
        let c = f.header.control in
        let still : Agrees s = a in
        ground (arith, on_request-Agrees s w f a, on_reply-Agrees fn s w f a, still)

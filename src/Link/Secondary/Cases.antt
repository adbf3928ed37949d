-- ===== src/Link/Secondary/Cases.antt =====
-- What the secondary does with every frame.
use go_dnp.Common.{ℕ, ◌<◌, true, false, none, some, List, [], length, ◌≡◌, ap, ◌↔◌, ◌⊎◌, arith}
use go_dnp.Link.Frame.{Frame, dfc}
use go_dnp.Link.Address.{is_broadcast}
use go_dnp.Link.Secondary.{
  Secondary, on_frame, reply, on_addressed, func_ack, func_confirmed_user_data,
  func_unconfirmed_user_data,
}

-- User data that is well formed: FCV is clear on unconfirmed data and set on confirmed data.
pub record Delivers (s : Secondary) (f : Frame) : Type 0 where
  pub primary : f.header.control.prm ≡ true
  pub some_data : 0 < length f.payload
  pub kind :
      ((f.header.control.func ≡ func_unconfirmed_user_data) × (f.header.control.fcv ≡ false))
      ⊎ ((f.header.control.func ≡ func_confirmed_user_data)
          × (f.header.control.fcv ≡ true)
          × ((is_broadcast f.header.dest ≡ true)
              ⊎ ((s.is_reset ≡ true) × (f.header.control.fcb ≡ s.expect_fcb))))

-- In any state and for any frame, a payload is handed up if and only if the frame is a primary message
-- with a payload that is unconfirmed user data without FCV, or confirmed user data with FCV that is
-- broadcast or comes on a reset link with the expected frame count bit.
pub on_frame-Delivers :
    (s : Secondary) (f : Frame)
    → ((p : List ℕ) × ((on_frame s f).1.payload ≡ some p)) ↔ Delivers s f
unfolding on_frame on_addressed
on_frame-Delivers s f = (
  λ (p, e). record { primary = ground arith; some_data = ground arith; kind = ground arith },
  λ d. (f.payload, ground arith),
)

-- The reply `r` to the frame `f`.
pub record Replies (s : Secondary) (f r : Frame) : Type 0 where
  pub to_source : r.header.dest ≡ f.header.src
  pub from_here : r.header.src ≡ s.local_addr
  pub direction : r.header.control.dir ≡ s.is_master
  pub secondary : r.header.control.prm ≡ false
  pub accepts_more : dfc r.header.control ≡ false
  pub bare : (r.payload ≡ []) × (r.header.len ≡ 5)
  pub asked : f.header.control.prm ≡ true
  pub addressed : is_broadcast f.header.dest ≡ false

on_frame_addressed :
    (s : Secondary) (f r : Frame)
    → (on_frame s f).1.reply ≡ some r
    → ((on_addressed s f).1.reply ≡ some r)
      × (f.header.control.prm ≡ true)
      × (is_broadcast f.header.dest ≡ false)
unfolding on_frame
on_frame_addressed s f r e = (ground arith, ground arith, ground arith)

-- What is sent is a reply to the source, whatever its function code.
on_addressed_reply :
    (s : Secondary) (f r : Frame)
    → (on_addressed s f).1.reply ≡ some r
    → r ≡ reply s r.header.control.func f.header.src
unfolding on_addressed
on_addressed_reply s f r e = ground arith

reply-Replies :
    (s : Secondary) (f r : Frame)
    → r ≡ reply s r.header.control.func f.header.src
    → f.header.control.prm ≡ true
    → is_broadcast f.header.dest ≡ false
    → Replies s f r
unfolding reply dfc
reply-Replies s f r e p b = record {
  to_source = ap (λ x. x.header.dest) e;
  from_here = ap (λ x. x.header.src) e;
  direction = ap (λ x. x.header.control.dir) e;
  secondary = ap (λ x. x.header.control.prm) e;
  accepts_more = ap (λ x. dfc x.header.control) e;
  bare = (ap (λ x. x.payload) e, ap (λ x. x.header.len) e);
  asked = p;
  addressed = b;
}

-- Every reply of `on_frame`, in any state and to any frame, goes from this station back to the frame's
-- source, as a secondary message without user data and with flow control off, and answers a primary
-- message that was not broadcast.
pub on_frame-Replies :
    (s : Secondary) (f r : Frame) → (on_frame s f).1.reply ≡ some r → Replies s f r
on_frame-Replies s f r e =
    let facts = on_frame_addressed s f r e in
    reply-Replies s f r (on_addressed_reply s f r facts.0) facts.1 facts.2

-- Confirmed user data with a payload, sent to a reset station and to it alone, that comes twice in a
-- row: the second copy is not delivered and changes nothing, and each copy is acknowledged, by the
-- same frame.
pub on_frame_twice :
    (s : Secondary) (f : Frame)
    → f.header.control.prm ≡ true
    → f.header.control.func ≡ func_confirmed_user_data
    → f.header.control.fcv ≡ true
    → 0 < length f.payload
    → is_broadcast f.header.dest ≡ false
    → s.is_reset ≡ true
    → let s' = (on_frame s f).0 in
      ((on_frame s' f).1.payload ≡ none)
      × ((on_frame s' f).0 ≡ s')
      × ((on_frame s f).1.reply ≡ some (reply s func_ack f.header.src))
      × ((on_frame s' f).1.reply ≡ (on_frame s f).1.reply)
unfolding on_frame on_addressed
on_frame_twice s f prm func fcv l b r = (ground arith, ground arith, ground arith, ground arith)

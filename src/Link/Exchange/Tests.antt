-- ===== src/Link/Exchange/Tests.antt =====
-- A payload that is sent over an unreset link; the first acknowledgement of it is lost.
use go_dnp.Common.{ℕ, true, false, none, List, [], ◌∷◌, ◌≡◌, refl, arith}
use go_dnp.Link.Address.{is_broadcast}
use go_dnp.Link.Frame.{Frame}
use go_dnp.Link.Primary.{Primary, idle, send, on_frame, on_timeout, no_frame}
use go_dnp.Link.Secondary
use go_dnp.Link.Secondary.{Secondary, SecResult, reply, func_ack}
use go_dnp.Link.Exchange.{
  System, completed, react, arrived, submit, arrive, lose_back, answer, expire, Reach, here, next,
}
use go_dnp.Link.Exchange.Delivery.{IsFresh, Delivered, exactly_once}

abbrev master : Primary
master = record {
  local_addr = 1;
  remote_addr = 1024;
  is_master = true;
  use_confirms = true;
  max_retries = 3;
  state = idle;
  link_up = false;
  fcb = false;
  retries = 0;
  pending = [];
  last_sent = no_frame;
  flow_control = false;
}

abbrev start : System
start = record {
  pri = master;
  sec = record { local_addr = 1024; is_master = false; is_reset = false; expect_fcb = false };
  forward = none;
  back = none;
  delivered = [];
  outcomes = [];
}

abbrev payload : List ℕ
payload = 0xc0 ∷ 0x01 ∷ []

abbrev ack : Frame
ack = reply start.sec func_ack 1

abbrev submitted : System
submitted = react start (send start.pri payload).0

-- One frame there and its acknowledgement back.
abbrev there : System → Frame → System
there y f = arrived y (Secondary.on_frame y.sec f)

abbrev and_back : System → System
and_back y = react (record y { back = none }) (on_frame y.pri ack)

abbrev reset_done : System
reset_done = and_back (there submitted submitted.pri.last_sent)

abbrev ack_lost : System
ack_lost = record (there reset_done reset_done.pri.last_sent) { back = none }

abbrev repeated : System
repeated = react ack_lost (on_timeout ack_lost.pri)

abbrev finished : System
finished = and_back (there repeated repeated.pri.last_sent)

reaches : Reach start finished
unfolding react arrived send on_frame on_timeout Secondary.on_frame Secondary.on_addressed reply
reaches =
    next
      (next
        (next
          (next
            (next
              (next
                (next (next here (submit payload refl refl (omega arith) (omega arith)))
                  (arrive _ refl))
                (answer ack refl))
              (arrive _ refl))
            lose_back)
          (expire refl refl))
        (arrive _ refl))
      (answer ack refl)

delivered_once : finished.delivered ≡ payload ∷ []
unfolding react arrived send on_frame on_timeout Secondary.on_frame Secondary.on_addressed reply
delivered_once = refl

start-IsFresh : IsFresh start
unfolding is_broadcast
start-IsFresh = record {
  confirms = refl;
  single = refl;
  rests = refl;
  down = refl;
  empty_line = (refl, refl);
  empty_logs = (refl, refl);
}

exactly_once_example : Delivered finished
exactly_once_example = exactly_once start-IsFresh reaches

-- Why the timer has to wait for the line: here it runs out while the first acknowledgement is on its way.
-- The frame is sent again, and the acknowledgement of that copy is taken for the one of the next payload.
abbrev second : List ℕ
second = 0xc1 ∷ 0x02 ∷ []

abbrev mistaken : System
mistaken =
    let acknowledged = there reset_done reset_done.pri.last_sent in
    let again = react acknowledged (on_timeout acknowledged.pri) in
    let twice = there (and_back again) again.pri.last_sent in
    let offered = react twice (send twice.pri second).0 in
    and_back (record offered { forward = none })

early_run :
    (mistaken.outcomes ≡ completed second ∷ completed payload ∷ [])
    × (mistaken.delivered ≡ payload ∷ [])
unfolding react arrived send on_frame on_timeout Secondary.on_frame Secondary.on_addressed reply
early_run = (refl, refl)

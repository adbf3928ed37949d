-- ===== src/Link/Secondary/Peer.antt =====
-- The secondary's answers to the frames of a confirmed exchange.
use go_dnp.Common.{ℕ, ◌<◌, Bool, true, false, not, none, some, List, length, ◌≡◌, arith}
use go_dnp.Link.Address.{is_broadcast}
use go_dnp.Link.Primary.{Primary, frame}
use go_dnp.Link.Primary.Cases.{data_frame, reset_frame}
use go_dnp.Link.Secondary.{on_addressed, Secondary, on_frame, reply, func_ack}

module _ (s : Secondary) (p : Primary) (single : is_broadcast p.remote_addr ≡ false) where
  pub on_frame-reset_frame : on_frame s (reset_frame p) ≡ (
    record s { is_reset = true; expect_fcb = true },
    record { reply = some (reply s func_ack p.local_addr); payload = none; discarded = false },
  )
  unfolding on_frame on_addressed frame
  on_frame-reset_frame = ground arith

  module _ (payload : List ℕ) (pos : 0 < length payload) (up : s.is_reset ≡ true) where
    -- The expected frame count bit: new data.
    pub on_frame-new_data :
        (fcb : Bool)
        → s.expect_fcb ≡ fcb
        → on_frame s (data_frame p fcb payload) ≡ (
          record s { expect_fcb = not fcb },
          record {
            reply = some (reply s func_ack p.local_addr);
            payload = some payload;
            discarded = false;
          },
        )
    unfolding on_frame on_addressed frame
    on_frame-new_data fcb e = ground arith

    -- The other frame count bit: a retransmission.
    pub on_frame-old_data :
        (fcb : Bool)
        → s.expect_fcb ≡ not fcb
        → on_frame s (data_frame p fcb payload) ≡ (
          s,
          record { reply = some (reply s func_ack p.local_addr); payload = none; discarded = true },
        )
    unfolding on_frame on_addressed frame
    on_frame-old_data fcb e = ground arith

-- ===== src/Stack/Unconfirmed.antt =====
-- Two stacks without link confirmations: what the frames of a fragment are, and what one does.
pub mod Sender
pub mod Receiver
pub mod Flow
pub mod Delivery
use go_dnp.Common.{
  ℕ, ◌+◌, ◌%◌, ◌≤◌, ◌<◌, Bool, true, false, not, ◌&&◌, ◌||◌, ltb, ◌==◌, if◌then◌else◌, List, [],
  ◌∷◌, ◌++◌, length, ok, ◌≡◌, ◌≢◌, refl, arith, some, none,
}
use go_dnp.Common.Bits.{IsU16}
use go_dnp.Link.Frame.{Header, Frame}
use go_dnp.Link.Frame.RoundTrip.{IsWire, frame_octets}
use go_dnp.Link.Primary
use go_dnp.Link.Primary.{Primary, Action, SendError}
use go_dnp.Link.Secondary
use go_dnp.Link.Secondary.{Secondary, func_unconfirmed_user_data, no_result}
use go_dnp.Stack.{Stack, Writer, Received}

-- The world of these stacks: a line that takes all octets, and the fragments reported, in order.
pub record World : Type 0 where
  pub wire : List ℕ
  pub reported : List Received

abbrev pub line : Writer World
line = record {
  put = λ w octets. (record w { wire = w.wire ++ octets }, true);
  begin = λ w. w;
  finish = λ w. (w, true);
}

abbrev pub note : Stack × World → Received → Stack × World
note (s, w) r = (s, record w { reported = w.reported ++ (r ∷ []) })

-- The header of unconfirmed user data with a payload of `n` octets.
abbrev pub data_header : Bool → ℕ → ℕ → ℕ → Header
data_header is_master dest src n = record {
  control = record {
    dir = is_master;
    prm = true;
    fcb = false;
    fcv = false;
    func = func_unconfirmed_user_data;
  };
  dest = dest;
  src = src;
  len = (5 + n) % 256;
}

-- The octets of the frames that carry payloads.
abbrev pub stream : Bool → ℕ → ℕ → List (List ℕ) → List ℕ
stream is_master dest src [] = []
stream is_master dest src (p ∷ ps) =
    frame_octets (data_header is_master dest src (length p)) p ++ stream is_master dest src ps

pub data_header-IsWire :
    (is_master : Bool) (dest src n : ℕ)
    → IsU16 dest
    → IsU16 src
    → IsWire (data_header is_master dest src n)
data_header-IsWire is_master dest src n d s = record {
  func_fits = omega arith;
  dest_fits = d;
  src_fits = s;
}

abbrev pub data_frame : Primary → List ℕ → Frame
data_frame p payload = record {
  header = data_header p.is_master p.remote_addr p.local_addr (length payload);
  payload = payload;
}

-- The primary, when it rests and does not confirm, passes a payload on at once.
pub send-unconfirmed :
    (p : Primary) (payload : List ℕ)
    → p.use_confirms ≡ false
    → p.state ≡ Primary.idle
    → p.flow_control ≡ false
    → length payload ≤ 250
    → Primary.send p payload ≡ (
      (
        record p { retries = 0; last_sent = data_frame p payload },
        data_frame p payload,
        Action.complete,
      ),
      SendError.nil,
    )
unfolding Primary.send
send-unconfirmed p payload c i f l = ground arith

-- The secondary hands unconfirmed data up and does nothing else.
pub on_frame-unconfirmed :
    (s : Secondary) (f : Frame)
    → f.header.control.prm ≡ true
    → f.header.control.fcv ≡ false
    → f.header.control.func ≡ func_unconfirmed_user_data
    → 0 < length f.payload
    → Secondary.on_frame s f ≡ (s, record no_result { payload = some f.payload })
unfolding Secondary.on_frame Secondary.on_addressed
on_frame-unconfirmed s f p v g l = ground arith

-- ===== src/Stack.antt =====
-- internal/stack/stack.go: the link and transport state of one connection. The buffers that frames are
-- built in are left out, as nothing is read from them later. `W` is the world outside: the writer and
-- the caller's own state. `fn` may use both and call the stack, as the sessions do.
pub mod Sending
pub mod Receiving
pub mod Unconfirmed
pub mod Busy
mod Tests
use go_dnp.Common.{
  ℕ, zero, suc, ◌+◌, ◌<◌, Bool, true, false, not, ◌&&◌, ◌||◌, bool_ne, ltb, ◌==◌, ◌!=◌,
  if◌then◌else◌, Option, none, some, List, [], ◌∷◌, ◌++◌, length, drop, Result, ok, err,
}
use go_dnp.Link.Address.{is_broadcast, is_valid_source, self_address}
use go_dnp.Link.Frame.{Frame, FrameError, encode}
use go_dnp.Link.Parser
use go_dnp.Link.Parser.{Parser, new_parser}
use go_dnp.Link.Primary
use go_dnp.Link.Primary.{Primary, SendError, Action, no_frame}
use go_dnp.Link.Secondary
use go_dnp.Link.Secondary.{Secondary, SecResult}
use go_dnp.Transport.Segmenter
use go_dnp.Transport.Segmenter.{Segmenter, segments_for}
use go_dnp.Transport.Reassembler
use go_dnp.Transport.Reassembler.{Reassembler, new_reassembler, default_max_fragment}

pub record Config : Type 0 where
  pub local_addr : ℕ
  pub remote_addr : ℕ
  pub is_master : Bool
  pub self_address : Bool
  pub use_confirms : Bool
  pub max_retries : ℕ
  pub max_rx_fragment : ℕ

pub record Stack : Type 0 where
  pub cfg : Config
  pub parser : Parser
  pub pri : Primary
  pub sec : Secondary
  pub seg : Segmenter
  pub reasm : Reassembler
  pub awaiting : Bool
  pub dest : ℕ

abbrev pub empty_segmenter : Segmenter
empty_segmenter = record { frag = []; off = 0; seq = 0; live = false }

unfoldable pub new_stack : Config → Stack
new_stack cfg =
    let max = if cfg.max_rx_fragment == 0 then default_max_fragment else cfg.max_rx_fragment in
    record {
      cfg = record cfg { max_rx_fragment = max };
      parser = new_parser;
      reasm = new_reassembler max;
      pri = record {
        local_addr = cfg.local_addr;
        remote_addr = cfg.remote_addr;
        is_master = cfg.is_master;
        use_confirms = cfg.use_confirms;
        max_retries = cfg.max_retries;
        state = Primary.idle;
        link_up = false;
        fcb = false;
        retries = 0;
        pending = [];
        last_sent = no_frame;
        flow_control = false;
      };
      sec = record {
        local_addr = cfg.local_addr;
        is_master = cfg.is_master;
        is_reset = false;
        expect_fcb = false;
      };
      seg = empty_segmenter;
      awaiting = false;
      dest = cfg.remote_addr;
    }

unfoldable pub reset : Stack → Stack
reset s = record s {
  parser = new_parser;
  reasm = Reassembler.reset s.reasm;
  pri = Primary.reset s.pri;
  sec = Secondary.reset s.sec;
  awaiting = false;
  seg = Segmenter.clear s.seg;
}

unfoldable pub busy : Stack → Bool
busy s = s.awaiting || s.seg.live

pub data Error : Type 0 where
  empty_fragment in_flight refused write_failed parser_full : Error
  link_send : SendError → Error
  encoding : FrameError → Error

-- io.Writer, and the messageWriter of a transport that has messages; for one that has none `begin` and
-- `finish` do nothing. A call says whether it succeeded.
pub record Writer (W : Type 0) : Type 0 where
  pub put : W → List ℕ → W × Bool
  pub begin : W → W
  pub finish : W → W × Bool

pub record Received : Type 0 where
  pub fragment : List ℕ
  pub source : ℕ
  pub dest : ℕ
  pub broadcast : Bool

-- Whether a frame is this station's to process.
unfoldable pub addressed_to_us : Stack → ℕ → Bool
addressed_to_us s dest =
    (dest == s.cfg.local_addr)
    || is_broadcast dest
    || (s.cfg.self_address && not s.cfg.is_master && (dest == self_address))

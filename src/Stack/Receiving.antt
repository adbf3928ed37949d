-- ===== src/Stack/Receiving.antt =====
-- internal/stack/stack.go: Receive, drain and deliver.
use go_dnp.Common.{
  ℕ, zero, suc, ◌+◌, not, ◌&&◌, ◌||◌, bool_ne, ◌==◌, ◌!=◌, if◌then◌else◌, Option, none, some, List,
  [], ◌∷◌, length, drop,
}
use go_dnp.Link.Address.{is_broadcast, is_valid_source, self_address}
use go_dnp.Link.Frame.{Frame}
use go_dnp.Link.Parser
use go_dnp.Link.Parser.{Parser, new_parser}
use go_dnp.Link.Primary
use go_dnp.Link.Primary.{Primary, SendError, Action, no_frame}
use go_dnp.Link.Secondary
use go_dnp.Link.Secondary.{Secondary, SecResult}
use go_dnp.Transport.Reassembler
use go_dnp.Transport.Reassembler.{Reassembler, new_reassembler, default_max_fragment}
use go_dnp.Stack.{addressed_to_us, Stack, Error, parser_full, Writer, Received}
use go_dnp.Stack.Sending.{write, after_reply}

module _ {W : Type 0} (out : Writer W) (fn : Stack × W → Received → Stack × W) where
  -- A payload through reassembly, and the fragment that it completes, if it does.
  abbrev pub report : Stack × W → Frame → Option (List ℕ) → Stack × W
  report sw f none = sw
  report sw f (some fragment) = fn sw (record {
    fragment = fragment;
    source = f.header.src;
    dest = f.header.dest;
    broadcast = is_broadcast f.header.dest;
  })

  unfoldable pub deliver : Stack × W → Frame → Option (List ℕ) → Stack × W
  deliver sw f none = sw
  deliver (s, w) f (some payload) =
      let (reasm, res) = Reassembler.accept s.reasm payload in
      report (record s { reasm = reasm }, w) f res.fragment

  abbrev pub reply_out : W → Option Frame → W × Option Error
  reply_out w none = (w, none)
  reply_out w (some r) = write out w r

  -- A primary frame: the secondary's reply, then what it hands up.
  abbrev pub unless_error :
      Stack × W → (Stack × W → Stack × W) → Option Error → (Stack × W) × Option Error
  unless_error sw go none = (go sw, none)
  unless_error sw go (some x) = (sw, some x)

  unfoldable pub on_request : Stack → W → Frame → (Stack × W) × Option Error
  on_request s w f =
      let (sec, res) = Secondary.on_frame s.sec f in
      let (w', e) = reply_out w res.reply in
      unless_error (record s { sec = sec }, w') (λ sw. deliver sw f res.payload) e

  unfoldable pub on_reply : Stack → W → Frame → (Stack × W) × Option Error
  on_reply s w f =
      let src = f.header.src in
      let q = if src != s.dest then record s { dest = src } else s in
      let (p, next, action) = Primary.on_frame q.pri f in
      let (sw, e) = after_reply out (record q { pri = p }) w (next, action) in
      if (src != s.dest) && ((s.dest != self_address) || not (is_valid_source src))
      then ((s, w), none)
      else (sw, e)

  -- The body of the loop of `drain`, for one frame.
  unfoldable pub on_frame : Stack → W → Frame → (Stack × W) × Option Error
  on_frame s w f =
      let c = f.header.control in
      if not (addressed_to_us s f.header.dest)
      then ((s, w), none)
      else if not (bool_ne c.dir s.cfg.is_master)
      then ((s, w), none)
      else if not (is_valid_source f.header.src)
      then ((s, w), none)
      else if c.prm
      then on_request s w f
      else on_reply s w f

  -- The loop of `drain`, on fuel.
  abbrev pub drain_on :
      (Stack × W → (Stack × W) × Option Error)
      → (Stack × W) × Option Error
      → (Stack × W) × Option Error
  drain_on rest (sw, some e) = (sw, some e)
  drain_on rest (sw, none) = rest sw

  abbrev pub drain_next :
      (Stack × W → (Stack × W) × Option Error)
      → Stack
      → W
      → Parser × Parser.Outcome
      → (Stack × W) × Option Error
  drain_next rest s w (p, Parser.got f) = drain_on rest (on_frame (record s { parser = p }) w f)
  drain_next rest s w (p, Parser.need_more) = ((record s { parser = p }, w), none)
  drain_next rest s w (p, Parser.again) = ((record s { parser = p }, w), none)

  unfoldable pub drain_loop : ℕ → Stack × W → (Stack × W) × Option Error
  drain_loop zero sw = (sw, none)
  drain_loop (suc fuel) (s, w) = drain_next (drain_loop fuel) s w (Parser.next s.parser)

  -- A frame takes octets, so a pass for each octet held and one more are enough.
  unfoldable pub drain : Stack → W → (Stack × W) × Option Error
  drain s w = drain_loop (length s.parser.held + 1) (s, w)

  -- The loop of `Receive`, on fuel; a pass takes an octet or ends with an error.
  unfoldable pub receive_loop : ℕ → Stack × W → List ℕ → (Stack × W) × Option Error
  receive_loop fuel sw [] = (sw, none)
  receive_loop zero sw (b ∷ bs) = (sw, none)
  receive_loop (suc fuel) (s, w) (b ∷ bs) =
      let (p, n, full) = Parser.write s.parser (b ∷ bs) in
      let rest = λ (sw : Stack × W). receive_loop fuel sw (drop n (b ∷ bs)) in
      let run = drain (record s { parser = p }) w in
      drain_on (λ sw. if full && (n == 0) then (sw, some parser_full) else rest sw) run

  unfoldable pub receive : Stack → W → List ℕ → (Stack × W) × Option Error
  receive s w octets = receive_loop (length octets) (s, w) octets

-- ===== src/Stack/Tests.antt =====
-- A master at address 1 and an outstation at address 10.
use go_dnp.Common.{
  ℕ, true, false, none, List, [], ◌∷◌, ◌++◌, take, drop, take-append-drop, append-nil, ap, ◌∙◌, ◌≡◌,
  refl, arith,
}
use go_dnp.Link.Address.{is_valid_source, is_reserved, is_broadcast}
use go_dnp.Link.Frame.{encode}
use go_dnp.Link.Primary
use go_dnp.Link.Primary.{is_busy}
use go_dnp.Transport.Segmenter
use go_dnp.Transport.Segmenter.{segments_for}
use go_dnp.Transport.Reassembler
use go_dnp.Stack.{Config, Stack, new_stack, busy}
use go_dnp.Stack.Sending.{write, after_send, pump_round, pump_loop, pump, send_to}
use go_dnp.Stack.Unconfirmed.{line, note}
use go_dnp.Stack.Unconfirmed.Delivery.{hear, IsPair, silence, send_to-receive}
use go_dnp.Stack.Busy.{Agrees}
use go_dnp.Stack.Busy.Loops.{sends, step, step-Agrees}

abbrev settings : ℕ → ℕ → Config
settings here there = record {
  local_addr = here;
  remote_addr = there;
  is_master = true;
  self_address = false;
  use_confirms = false;
  max_retries = 2;
  max_rx_fragment = 0;
}

abbrev master : Stack
master = new_stack (settings 1 10)

abbrev outstation : Stack
outstation = new_stack (record (settings 10 1) { is_master = false })

abbrev request : List ℕ
request = 0xc1 ∷ 0x01 ∷ 0x3c ∷ 0x02 ∷ 0x06 ∷ []

abbrev octets : List ℕ
octets = (send_to line master silence 10 request).0.1.wire

master-IsPair : IsPair master outstation
unfolding new_stack busy is_busy is_valid_source is_reserved is_broadcast
master-IsPair = record {
  quiet = record { unconfirmed = refl; rests = refl; flows = refl };
  free = refl;
  seq_fits = omega arith;
  dest_fits = omega arith;
  src_fits = omega arith;
  valid = refl;
  other = refl;
  empty = refl;
  within = omega arith;
}

-- The octets come in two chunks.
send_to-receive_example :
    ((send_to line master silence 10 request).1 ≡ none)
    × ((hear (take 7 octets ∷ drop 7 octets ∷ []) (outstation, silence)).1 ≡ none)
    × ((hear (take 7 octets ∷ drop 7 octets ∷ []) (outstation, silence)).0.1 ≡ record silence {
      reported = record { fragment = request; source = 1; dest = 10; broadcast = false } ∷ [];
    })
unfolding new_stack Reassembler.limit Reassembler.new_reassembler is_broadcast
send_to-receive_example =
    send_to-receive master outstation request (take 7 octets ∷ drop 7 octets ∷ []) master-IsPair
      (omega arith) (omega arith)
      (ap (take 7 octets ++◌) (append-nil (drop 7 octets)) ∙ take-append-drop 7 octets)

-- A master with confirmation sends the reset of the link and waits.
abbrev confirming : Stack
confirming = new_stack (record (settings 1 10) { use_confirms = true })

confirming-Agrees : Agrees confirming
unfolding new_stack is_busy
confirming-Agrees = refl

sent : (step line note (sends 10 request) confirming silence).1 ≡ none
unfolding step send_to busy pump pump_loop pump_round after_send write new_stack segments_for
    Segmenter.reset Segmenter.next Primary.send is_busy Primary.frame encode
sent = refl

step-Agrees_example : Agrees (step line note (sends 10 request) confirming silence).0.0
step-Agrees_example =
    step-Agrees line note (λ s w m a. a) (sends 10 request) confirming silence confirming-Agrees
      sent

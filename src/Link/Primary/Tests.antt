-- ===== src/Link/Primary/Tests.antt =====
-- A primary that has sent confirmed user data and used one of its three retries.
use go_dnp.Common.{true, false, [], ◌∷◌, ◌≡◌, arith}
use go_dnp.Link.Primary.{Primary, wait_confirm, on_timeout}
use go_dnp.Link.Primary.Invariant.{Inv, times_out, step, step-Inv}
use go_dnp.Link.Primary.Retries.{time_outs, silence, retry_reaction}
use go_dnp.Link.Secondary.{func_confirmed_user_data}

abbrev waiting : Primary
waiting = record {
  local_addr = 1;
  remote_addr = 1024;
  is_master = true;
  use_confirms = true;
  max_retries = 3;
  state = wait_confirm;
  link_up = true;
  fcb = true;
  retries = 1;
  pending = 0xc0 ∷ [];
  last_sent = record {
    header = record {
      control = record {
        dir = true;
        prm = true;
        fcb = true;
        fcv = true;
        func = func_confirmed_user_data;
      };
      dest = 1024;
      src = 1;
      len = 6;
    };
    payload = 0xc0 ∷ [];
  };
  flow_control = false;
}

waiting-Inv : Inv waiting
waiting-Inv = ground arith

step-Inv_example : Inv (step waiting times_out)
step-Inv_example = step-Inv waiting times_out waiting-Inv

-- The second timeout from there is answered by a retransmission.
silence_example : on_timeout (time_outs 1 waiting) ≡ retry_reaction waiting 1
silence_example = silence waiting 1 (λ i. cc) (omega arith)

-- ===== src/Outstation/Unsolicited/Retry.antt =====
-- What happens to an unsolicited response that is not confirmed.
use go_dnp.Common.{ℕ, ◌+◌, ◌≤◌, Bool, true, false, ◌||◌, List, ◌≡◌}
use go_dnp.Outstation.EventBuffer.{Event}
use go_dnp.Outstation.Unsolicited.{Session, Reporter, unsolicited_fragment, waits, prepare}

module _ {W V E : Type 0} (out : Reporter W V E) where
  -- A response that was sent and whose deadline has passed.
  record IsOverdue (s : Session V) (now : ℕ) : Type 0 where
    pub enabled : s.cfg.enabled ≡ true
    pub connected : s.connected ≡ true
    pub awaiting : s.unsol.awaiting ≡ true
    pub over : s.unsol.deadline ≤ now

  abbrev pub counted : Session V → Session V
  counted s = record s {
    unsol = record s.unsol { awaiting = false; retries = s.unsol.retries + 1 };
  }

  -- The session that the report of some events starts from, and the fragment that carries them.
  abbrev pub prepared : Session V → List (Event V) → Bool → Session V
  prepared s es null = (prepare out s es null).0

  abbrev pub report_of : Session V → List (Event V) → Bool → List ℕ
  report_of s es null = unsolicited_fragment out (prepared s es null) (prepare out s es null).1

  -- The session when the stack has taken that fragment.
  abbrev sent : Session V → List (Event V) → ℕ → Bool → Session V
  sent s es now null =
      let q = waits out (prepared s es null) now in
      record q {
        unsol = record q.unsol {
          null_sent = q.unsol.null_sent || null;
          last_body = (prepare out s es null).1;
          retained = true;
        };
      }

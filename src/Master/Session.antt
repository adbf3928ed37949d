-- ===== src/Master/Session.antt =====
-- The state of a session with one outstation, master/session.go. Times are numbers, and each operation reads the
-- clock once. The stack and its connection are the state `W` of an argument, and what the closures of tasks have
-- captured is `C`; `R` are the errors of both. What the handler and the callers are told is kept in order.
pub mod Sending
pub mod Receiving
pub mod Events
pub mod Callers
pub mod Series
use go_dnp.Common.{
  ℕ, zero, suc, ◌+◌, Bool, true, false, not, ◌&&◌, ◌||◌, ltb, ◌==◌, if◌then◌else◌, Option, none,
  some, List, [], ◌∷◌, ◌++◌, map,
}
use go_dnp.App.Errors
use go_dnp.App.Fragment.{Fragment, Builder, Status, default_max_fragment}
use go_dnp.Master.Task.{
  Request, Next, no_next, follows, Task, new_task, new_clear_restart_task, new_unsolicited_task,
  new_scan_task, class_123, class_all,
}
use go_dnp.Master.Scheduler
use go_dnp.Master.Scheduler.{Scheduler}

-- The fields that the session reads; the stack's, those of files and the log are left out.
pub record Config : Type 0 where
  pub response_timeout : ℕ
  pub link_timeout : ℕ
  pub keep_alive : ℕ
  pub integrity_on_startup : Bool
  pub disable_unsol_on_startup : Bool
  pub unsol_class_mask : ℕ
  pub max_tx_fragment : ℕ

abbrev or_default : ℕ → ℕ → ℕ
or_default n d = if n == 0 then d else n

-- A value below zero in the source is 0 here; times are milliseconds.
unfoldable pub apply_defaults : Config → Config
apply_defaults c = record c {
  response_timeout = or_default c.response_timeout 5000;
  max_tx_fragment = or_default c.max_tx_fragment default_max_fragment;
  link_timeout = or_default c.link_timeout 1000;
}

pub record Stats : Type 0 where
  pub tasks_run : ℕ
  pub tasks_succeeded : ℕ
  pub tasks_failed : ℕ
  pub response_timeout : ℕ
  pub fragments_rx : ℕ
  pub fragments_discarded : ℕ
  pub unsolicited : ℕ
  pub connections : ℕ
  pub restarts_seen : ℕ

-- Why a task failed.
pub data Failure (R : Type 0) : Type 0 where
  timeout no_connection task_failed : Failure R
  malformed : Status → Failure R
  unbuilt : Errors.Error → Failure R
  unsent reported : R → Failure R

-- What the session tells: a fragment to the handler, with the session's idea of the outstation's clock, or
-- the outcome of a task to its caller.
pub data Output (R : Type 0) : Type 0 where
  handed : (frag : Fragment) (unsolicited synchronized : Bool) → Output R
  answered : (caller : ℕ) (outcome : Option (Failure R)) → Output R

pub record Session (C R W : Type 0) : Type 0 where
  pub cfg : Config
  pub line : W
  pub seq : ℕ
  pub unsol_seq : ℕ
  pub has_unsol_seq : Bool
  pub peer_silent : Bool
  pub synchronized : Bool
  pub sched : Scheduler C R
  pub inflight : Option (Task C R)
  pub stats : Stats
  pub connected : Bool
  pub last_iin : ℕ
  pub last_rx : ℕ
  pub link_deadline : ℕ
  pub startup_active : Bool
  pub out : List (Output R)

-- The operations of the stack that the session calls.
pub record Line (R W : Type 0) : Type 0 where
  pub send : W → List ℕ → W × Option R
  pub pending : W → Bool
  pub busy : W → Bool
  pub on_timeout : W → (W × Bool) × Option R
  pub send_link_status_request : W → W × Option R
  pub reset : W → W

-- The closures of a task; `on_fragment` and `on_done` may change the task's failure.
pub record Closures (C R : Type 0) : Type 0 where
  pub build : C → Builder → Builder × Option Errors.Error
  pub on_fragment : C → Option R → Fragment → C × Option R
  pub on_done : C → Option R → ℕ → C × Option R
  pub next : C → Option (Request C × Next C)

abbrev pub is_set : {C : Type 0} → Next C → Bool
is_set no_next = false
is_set n = true

abbrev pub fails : {R : Type 0} → Option (Failure R) → Bool
fails none = false
fails (some e) = true

abbrev pub counted : Stats → Bool → Stats
counted st true = record st { tasks_failed = st.tasks_failed + 1 }
counted st false = record st { tasks_succeeded = st.tasks_succeeded + 1 }

module _ {C : Type 0} where
  -- The steps of the startup sequence, each marked as one, and chained.
  abbrev only_if : Bool → Request C → List (Request C)
  only_if true r = r ∷ []
  only_if false r = []

  unfoldable pub startup_steps : Config → List (Request C)
  startup_steps cfg =
      new_clear_restart_task
        ∷ only_if cfg.disable_unsol_on_startup (new_unsolicited_task false class_123)
      ++ only_if cfg.integrity_on_startup (new_scan_task class_all)
      ++ only_if (not (cfg.unsol_class_mask == 0)) (new_unsolicited_task true cfg.unsol_class_mask)

  unfoldable pub follow_all : List (Request C) → Next C
  follow_all [] = no_next
  follow_all (r ∷ rs) = follows (record r { startup = true }) (follow_all rs)

module _ {C R W : Type 0} where
  -- `finish`, which tells a waiting caller.
  unfoldable pub finish : Session C R W → Option ℕ → Option (Failure R) → Session C R W
  finish s none outcome = s
  finish s (some caller) outcome = record s { out = s.out ++ (answered caller outcome ∷ []) }

  unfoldable pub enqueue : Session C R W → Task C R → ℕ → Session C R W
  enqueue s t now = record s { sched = Scheduler.push s.sched (record t { due = now }) }

  -- A periodic task is queued again whatever the outcome.
  unfoldable pub rescheduled : Session C R W → Task C R → ℕ → Session C R W
  rescheduled s t now =
      if ltb 0 t.request.period
      then record s {
        sched = Scheduler.push s.sched (record t { due = now + t.request.period; done = none });
      }
      else s

  unfoldable pub complete_task : Session C R W → Task C R → Option (Failure R) → ℕ → Session C R W
  unfolding finish rescheduled
  complete_task s t outcome now =
      let ends = t.request.startup && (fails outcome || not (is_set t.next)) in
      let q = record s {
        startup_active = if ends then false else s.startup_active;
        stats = counted s.stats (fails outcome);
      } in
      finish (rescheduled q t now) t.done outcome

  abbrev pub failed_with : Option (Task C R) → Session C R W → Failure R → ℕ → Session C R W
  failed_with none s e now = s
  failed_with (some t) s e now = complete_task (record s { inflight = none }) t (some e) now

  unfoldable pub fail_inflight : Session C R W → Failure R → ℕ → Session C R W
  fail_inflight s e now = failed_with s.inflight s e now

  -- The callers that `clear` fails.
  unfoldable pub answer_all : List ℕ → Session C R W → Session C R W
  answer_all [] s = s
  answer_all (caller ∷ rest) s =
      answer_all rest (record s { out = s.out ++ (answered caller (some task_failed) ∷ []) })

  abbrev pub begin_with : Next C → Session C R W → ℕ → Session C R W
  begin_with (follows r n) s now = enqueue (record s { startup_active = true }) (new_task r n) now
  begin_with n s now = s

  unfoldable pub startup_sequence : Session C R W → ℕ → Session C R W
  startup_sequence s now =
      let (sched, failed) = Scheduler.clear s.sched in
      begin_with (follow_all (startup_steps s.cfg)) (answer_all failed (record s { sched = sched }))
        now

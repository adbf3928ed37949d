-- ===== src/Outstation/Solicited/Pacing/Repeating.antt =====
-- A request that comes again: what is remembered of it by whatever answered it first. Outstation/session.go: handle.
use go_dnp.Common.{
  ℕ, Bool, true, false, not, ◌&&◌, ◌||◌, ltb, ◌==◌, ◌!=◌, if◌then◌else◌, Option, none, length, ◌≡◌,
  refl, arith,
}
use go_dnp.App.Errors.{bad_qualifier}
use go_dnp.App.FuncCode.{func_confirm, func_auth_request, func_auth_request_no_ack}
use go_dnp.App.Iin.{iin_parameter_error}
use go_dnp.App.Fragment.{Fragment, failed}
use go_dnp.Stack.{Received}
use go_dnp.Outstation.Unsolicited.{Reporter}
use go_dnp.Outstation.Solicited.{Session, Line}
use go_dnp.Outstation.Solicited.Requests.{
  Handlers, set_iin, all_consistent, is_repeat_request, replay_response, reject_malformed,
  on_authentication, act_on, on_request,
}
use go_dnp.Outstation.Solicited.Pacing.Known.{key_of, Knows, repeat-Knows, remembered-repeats}
use go_dnp.Outstation.Solicited.Pacing.Remembering.{replay-Knows, act_on-Knows}

-- What `on_request` does with a request that it does not act on, for each of its reasons in turn.
abbrev gate {ℓ} : {A : Type ℓ} → Bool → Bool → Bool → Bool → Bool → A → A → A → A → A → A → A
gate a b c d e p q r s t x =
    if a then p else if b then q else if c then r else if d then s else if e then t else x

gate_shut {ℓ} :
    {A : Type ℓ} (a b c d e : Bool) (p q r s t x y : A)
    → (a || b || c || d || e) ≡ true
    → gate a b c d e p q r s t x ≡ gate a b c d e p q r s t y
gate_shut true b c d e p q r s t x y h = refl
gate_shut false true c d e p q r s t x y h = refl
gate_shut false false true d e p q r s t x y h = refl
gate_shut false false false true e p q r s t x y h = refl
gate_shut false false false false true p q r s t x y h = refl
gate_shut false false false false false p q r s t x y h = absurd (ground (arith, h))

gate_open {ℓ} :
    {A : Type ℓ} (a b c d e : Bool) (p q r s t x : A)
    → (a || b || c || d || e) ≡ false
    → gate a b c d e p q r s t x ≡ x
gate_open false false false false false p q r s t x h = refl
gate_open false false false false true p q r s t x h = absurd (ground (arith, h))
gate_open false false false true e p q r s t x h = absurd (ground (arith, h))
gate_open false false true d e p q r s t x h = absurd (ground (arith, h))
gate_open false true c d e p q r s t x h = absurd (ground (arith, h))
gate_open true b c d e p q r s t x h = absurd (ground (arith, h))

-- The reasons not to look a request up and act on it.
abbrev incomplete : Fragment → Bool
incomplete f = not f.header.control.fir || not f.header.control.fin

abbrev confirms_objects : Fragment → Bool
confirms_objects f = (f.header.func == func_confirm) && ltb 0 (length f.objects)

abbrev asks_back : Fragment → Bool
asks_back f = (f.header.func != func_confirm) && (f.header.control.con || f.header.control.uns)

abbrev inconsistent : Fragment → Bool
inconsistent f = not (all_consistent f.objects)

abbrev authenticates : Fragment → Bool
authenticates f =
    (f.header.func == func_auth_request) || (f.header.func == func_auth_request_no_ack)

abbrev pub is_turned_away : Fragment → Bool
is_turned_away f =
    incomplete f || confirms_objects f || asks_back f || inconsistent f || authenticates f

module _ {D V W R : Type 0} (line : Line R W) (out : Reporter W V R) (r : Received)
    (f : Fragment) where
  -- A request that is not turned away: answered again, or acted on.
  abbrev pub looked_up : Handlers D V R → Session D V W → ℕ → Session D V W × Option R
  looked_up acts s now =
      if (f.header.func != func_confirm) && is_repeat_request s r f.header.control.seq
      then replay_response line s r f.header.control.seq now
      else act_on line acts out s r f now

  abbrev pub gated : Session D V W → ℕ → Session D V W × Option R → Session D V W × Option R
  gated s now x =
      gate (incomplete f) (confirms_objects f) (asks_back f) (inconsistent f) (authenticates f)
        (set_iin s iin_parameter_error, none) (s, none) (s, none)
        (reject_malformed line s r (failed (bad_qualifier 0)) now)
        (on_authentication line s r f.header now) x

  pub gated-shut :
      (s : Session D V W) (now : ℕ) (x y : Session D V W × Option R)
      → is_turned_away f ≡ true
      → gated s now x ≡ gated s now y
  gated-shut s now x y =
      gate_shut (incomplete f) (confirms_objects f) (asks_back f) (inconsistent f) (authenticates f)
        (set_iin s iin_parameter_error, none) (s, none) (s, none)
        (reject_malformed line s r (failed (bad_qualifier 0)) now)
        (on_authentication line s r f.header now) x y

  pub gated-open :
      (s : Session D V W) (now : ℕ) (x : Session D V W × Option R)
      → is_turned_away f ≡ false
      → gated s now x ≡ x
  gated-open s now x =
      gate_open (incomplete f) (confirms_objects f) (asks_back f) (inconsistent f) (authenticates f)
        (set_iin s iin_parameter_error, none) (s, none) (s, none)
        (reject_malformed line s r (failed (bad_qualifier 0)) now)
        (on_authentication line s r f.header now) x

  pub on_request-gated :
      (acts : Handlers D V R) (s : Session D V W) (now : ℕ)
      → on_request line acts out s r f now ≡ gated s now (looked_up acts s now)
  unfolding on_request
  on_request-gated acts s now = refl

  pub looked_up-Knows :
      (acts : Handlers D V R) (s : Session D V W) (now : ℕ)
      → (f.header.func == func_confirm) ≡ false
      → Knows (key_of r f.header.control.seq) (looked_up acts s now).0
  looked_up-Knows acts s now c =
      choose ((f.header.func != func_confirm) && is_repeat_request s r f.header.control.seq) refl
    where
      choose :
          (b : Bool)
          → ((f.header.func != func_confirm) && is_repeat_request s r f.header.control.seq) ≡ b
          → Knows
              (key_of r f.header.control.seq)
              (if◌then◌else◌ {A = Session D V W × Option R} b
                (replay_response line s r f.header.control.seq now)
                (act_on line acts out s r f now)).0
      choose true e =
          replay-Knows line (key_of r f.header.control.seq) s r f.header.control.seq now
            (repeat-Knows s r f.header.control.seq (ground (arith, e)))
      choose false e = act_on-Knows line acts out s r f now c

  pub looked_up-replayed :
      (acts : Handlers D V R) (s : Session D V W) (now : ℕ)
      → (f.header.func == func_confirm) ≡ false
      → Knows (key_of r f.header.control.seq) s
      → looked_up acts s now ≡ replay_response line s r f.header.control.seq now
  looked_up-replayed acts s now c h =
      let again = remembered-repeats s r f.header.control.seq h in
      choose ((f.header.func != func_confirm) && is_repeat_request s r f.header.control.seq)
        (ground (arith, c, again))
    where
      choose :
          (b : Bool)
          → b ≡ true
          → (if b
              then replay_response line s r f.header.control.seq now
              else act_on line acts out s r f now)
            ≡ replay_response line s r f.header.control.seq now
      choose true e = refl
      choose false e = absurd (ground (arith, e))

-- ===== src/Outstation/Command/SelectOperate.antt =====
-- An OPERATE acts only on the request that was selected just before it, in time and as it was.
use go_dnp.Common.{
  ℕ, ◌+◌, ◌≤◌, Bool, true, false, ◌||◌, ◌==◌, if◌then◌else◌, Bool-cases, Option, List, [], ◌∷◌,
  drop, All, ◌≡◌, ◌≢◌, ◌⊎◌, ◌↔◌, refl, sym, ap, ap₂, ◌∙◌, inl, inr, arith,
}
use go_dnp.App.FuncCode.{func_select, func_operate, no_reply}
use go_dnp.App.Header.{size}
use go_dnp.App.Fragment.{Fragment}
use go_dnp.Stack.{Received}
use go_dnp.Outstation.Command.{
  operate_direct, operate_selected, command_success, is_ok, Selection, clear, bytes_equal, next_seq,
  matches, Device, Session,
}
use go_dnp.Outstation.Command.Execute.{
  Run, execute_commands, all_ok, answer, on_select, operate_type, on_command,
}
use go_dnp.Outstation.Command.Refusal.{IsRefused, execute_commands-IsRefused}

pub bytes_equal_sound : (xs ys : List ℕ) → bytes_equal xs ys ≡ true → xs ≡ ys
unfolding bytes_equal
bytes_equal_sound [] [] e = refl
bytes_equal_sound [] (y ∷ ys) e = cc
bytes_equal_sound (x ∷ xs) [] e = cc
bytes_equal_sound (x ∷ xs) (y ∷ ys) e =
    let same : x ≡ y = ground (arith, e) in
    let rest : bytes_equal xs ys ≡ true = ground (arith, e) in
    ap₂ ◌∷◌ same (bytes_equal_sound xs ys rest)

pub bytes_equal_refl : (xs : List ℕ) → bytes_equal xs xs ≡ true
unfolding bytes_equal
bytes_equal_refl [] = refl
bytes_equal_refl (x ∷ xs) = ground (arith, bytes_equal_refl xs)

-- What a selection has to be for an operate request.
abbrev pub Fits : Selection → List ℕ → ℕ → ℕ → Type 0
Fits s objects seq now =
    s.active ≡ true × now ≤ s.expires × seq ≡ next_seq s.seq × s.objects ≡ objects

pub matches_lem :
    (s : Selection) (objects : List ℕ) (seq now : ℕ)
    → (matches s objects seq now ≡ command_success) ↔ Fits s objects seq now
unfolding matches
matches_lem s objects seq now = (
  (λ e. (
    ground (arith, e),
    ground (arith, e),
    ground (arith, e),
    bytes_equal_sound s.objects objects (ground (arith, e)),
  )),
  (λ f.
      let equal : bytes_equal s.objects objects ≡ true =
        ap (bytes_equal s.objects) (sym f.3) ∙ bytes_equal_refl s.objects in
      ground (arith, equal, f.0, f.1, f.2)),
)

module _ {W C V E : Type 0} (dev : Device W C V E) where
  answer-sel :
      (silent : Bool) (s : Session) (r : Received) (frag : Fragment) (run : Run dev)
      → (answer dev silent s r frag run).0.0.sel ≡ s.sel
  unfolding answer
  answer-sel true s r frag run = refl
  answer-sel false s r frag run = refl

  -- What a SELECT leaves behind fits a later operate request exactly if every command of the SELECT
  -- was accepted and the request has the same objects and the next sequence number, no later than the
  -- timeout after the SELECT; after a refused SELECT no request fits.
  pub on_select-Fits :
      (s : Session) (w : W) (r : Received) (frag : Fragment) (objects : List ℕ) (now : ℕ)
      (objects' : List ℕ) (seq' now' : ℕ)
      → (let left = (on_select dev s w r frag objects now).0.0.sel in
          let run = execute_commands dev s w frag operate_direct command_success in
          (matches left objects' seq' now' ≡ command_success) ↔ (
            (all_ok dev run.outcomes ≡ true)
            × (now' ≤ now + s.select_timeout)
            × (seq' ≡ next_seq frag.header.control.seq)
            × (objects ≡ objects')))
  unfolding on_select clear
  on_select-Fits s w r frag objects now objects' seq' now' =
      rw (answer-sel r.broadcast _ r frag run) (judge (all_ok dev run.outcomes))
    where
      run : Run dev
      run = execute_commands dev s w frag operate_direct command_success

      taken : Selection
      taken = record {
        active = true;
        objects = objects;
        seq = frag.header.control.seq;
        expires = now + s.select_timeout;
      }

      judge :
          (b : Bool)
          → (matches (if b then taken else clear s.sel) objects' seq' now' ≡ command_success) ↔ (
              (b ≡ true)
              × (now' ≤ now + s.select_timeout)
              × (seq' ≡ next_seq frag.header.control.seq)
              × (objects ≡ objects'))
      judge true = matches_lem taken objects' seq' now'
      judge false = (
        (λ e. absurd (false_true ((matches_lem (clear s.sel) objects' seq' now').0 e).0)),
        (λ f. absurd (false_true f.0)),
      )
        where
          false_true : false ≢ true
          false_true e = cc

  -- The run of the commands of an OPERATE.
  abbrev pub operated : Session → W → Received → Fragment → Run dev
  operated s w r frag =
      execute_commands dev (record s { sel = clear s.sel }) w frag operate_selected
        (matches s.sel (drop (size frag.header) frag.raw) frag.header.control.seq (dev.now w))

  -- What `on_command` is at an OPERATE.
  on_command-operated :
      (s : Session) (w : W) (r : Received) (frag : Fragment)
      → frag.header.func ≡ func_operate
      → on_command dev s w r frag
        ≡ answer dev
            (no_reply func_operate || r.broadcast)
            (record s { sel = clear s.sel })
            r
            frag
            (operated s w r frag)
  unfolding on_command
  on_command-operated s w r frag e = ap at e
    where
      at : ℕ → (Session × W) × Option E
      at fc =
          let now = dev.now w in
          let objects = drop (size frag.header) frag.raw in
          let operating = fc == func_operate in
          let select_status =
            if operating
            then matches s.sel objects frag.header.control.seq now
            else command_success in
          let s' = if operating then record s { sel = clear s.sel } else s in
          let run = execute_commands dev s' w frag (operate_type dev fc) select_status in
          if fc == func_select
          then on_select dev s w r frag objects now
          else answer dev (no_reply fc || r.broadcast) s' r frag run

  -- An OPERATE uses the selection up, and the response answers the run of its commands. Unless its
  -- objects, its sequence number and its time fit the selection, that run has touched nothing outside,
  -- and every command of it was refused.
  pub on_command-operate :
      (s : Session) (w : W) (r : Received) (frag : Fragment)
      → frag.header.func ≡ func_operate
      → (let s' = record s { sel = clear s.sel } in
          let run = operated s w r frag in
          ((on_command dev s w r frag).0.0.sel ≡ clear s.sel)
          × (on_command dev s w r frag
              ≡ answer dev (no_reply func_operate || r.broadcast) s' r frag run)
          × (Fits s.sel (drop (size frag.header) frag.raw) frag.header.control.seq (dev.now w)
              ⊎ (run.world ≡ w × All IsRefused run.outcomes)))
  unfolding is_ok
  on_command-operate s w r frag e =
      let status =
        matches s.sel (drop (size frag.header) frag.raw) frag.header.control.seq (dev.now w) in
      let s' = record s { sel = clear s.sel } in
      let same = on_command-operated s w r frag e in
      (
        ap (λ x. x.0.0.sel) same
            ∙ answer-sel (no_reply func_operate || r.broadcast) s' r frag (operated s w r frag),
        same,
        elim (Bool-cases (is_ok status)) [
          | inl z ↦ inl (
              (matches_lem s.sel (drop (size frag.header) frag.raw) frag.header.control.seq
                  (dev.now w)).0
                (ground (arith, z)))
          | inr z ↦ inr (execute_commands-IsRefused dev s' w frag operate_selected status z)
        ],
      )

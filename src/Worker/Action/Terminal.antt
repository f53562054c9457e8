-- ===== src/Worker/Action/Terminal.antt =====
-- A durable action that returns has ended, and the store knows how.
use voice_mesh.Prelude.{
  ℕ, zero, suc, ◌+◌, ◌≡◌, refl, ◌∙◌, sym, ap, Bool, true, false, not, Option, none, some, List, [],
  ◌∷◌, arith, ltb,
}
use voice_mesh.Prelude.Traces.{run}
use voice_mesh.Prelude.Lower.{lower_or_empty}
use voice_mesh.Worker.Flow.{
  timeout_error, activity_error, Outcome, returned, raised, out_of_fuel, World, head_signals,
  tail_signals, ◌>>=◌, ◌>>◌, pure, gets, modify, execute, deliver, start,
}
use voice_mesh.Worker.Flow.Rules.{Ensures, bind-Ensures, continue_post, if-Ensures, if_post}
use voice_mesh.Worker.Action.{
  DurableActionState, cancelled, completed, cannot_cancel, failed, timed_out, requested, EventType,
  action_timed_out, action_requested, action_failed, ToolConfig, Payload, DurableAction, Signal,
  cancel_signal, status_signal, Activity, persist_tool_state, signal, Action, ActionRun, verdict,
  conclude, transition, cancel_outcome, cancel_after_create, judge, poll, after_create, attempt,
  handle_error, run_workflow, wait_for_news, take_status, init,
}

abbrev pub is_terminal : DurableActionState → Bool
is_terminal cancelled = true
is_terminal completed = true
is_terminal cannot_cancel = true
is_terminal failed = true
is_terminal timed_out = true
is_terminal _ = false

-- The state of the latest `persist_tool_state`; `calls` has the latest call first.
abbrev pub last_told : List Activity → Option DurableActionState
last_told [] = none
last_told (persist_tool_state s ∷ cs) = some s.state
last_told (_ ∷ cs) = last_told cs

-- Ended in a terminal state, which is the one that the store was told last.
pub record HasEnded (r : ActionRun) : Type 0 where
  pub terminal : is_terminal r.fields.state ≡ true
  pub told : last_told r.calls ≡ some r.fields.state

pub state-signals : (s : DurableAction) (es : List Signal) → (run signal s es).state ≡ s.state
state-signals s [] = refl
state-signals s (cancel_signal reason ∷ es) = state-signals (signal s (cancel_signal reason)) es
state-signals s (status_signal p ∷ es) = state-signals (signal s (status_signal p)) es

verdict-terminal :
    (c : ToolConfig) (t : List ℕ) (s : DurableActionState) (e : EventType)
    → verdict c t ≡ some (s, e)
    → is_terminal s ≡ true
unfolding verdict
verdict-terminal c t s e q = ground arith

module _ (w : World Signal Activity Payload) where
  -- Signals come during both awaits, and leave the state as it is.
  transition_tells :
      (st : DurableActionState) (e : EventType) (r : ActionRun) (a : Unit {0})
      → (transition w st e r).0 ≡ returned a
      → ((transition w st e r).1.fields.state ≡ st)
        × (last_told (transition w st e r).1.calls ≡ some st)
  unfolding transition execute deliver ◌>>=◌
  transition_tells st e r a q =
      let s₁ : DurableAction = record r.fields { state = st } in
      let s₂ = run signal s₁ (head_signals r.coming) in
      ground (
        arith,
        state-signals s₁ (head_signals r.coming),
        state-signals s₂ (head_signals (tail_signals r.coming)),
      )

  transition-HasEnded :
      (st : DurableActionState) (e : EventType)
      → is_terminal st ≡ true
      → Ensures HasEnded (transition w st e)
  transition-HasEnded st e h = record {
    at = λ r a q.
        let (s, t) = transition_tells st e r a q in
        record { terminal = ap is_terminal s ∙ h; told = t ∙ ap some (sym s) };
  }

  ruleset ended_rules = (bind-Ensures, if-Ensures, transition-HasEnded)

  cancel_outcome-HasEnded : (p : Payload) → Ensures HasEnded (cancel_outcome w p)
  unfolding cancel_outcome
  cancel_outcome-HasEnded p = search (ended_rules) depth 14

  cancel_after_create-HasEnded : (c : ToolConfig) → Ensures HasEnded (cancel_after_create w c)
  unfolding cancel_after_create
  cancel_after_create-HasEnded c = search (ended_rules, cancel_outcome-HasEnded) depth 14

  conclude-HasEnded :
      (v : Option (DurableActionState × EventType)) (rest : Action (Unit {0}))
      → ((s : DurableActionState) (e : EventType) → v ≡ some (s, e) → is_terminal s ≡ true)
      → Ensures HasEnded rest
      → Ensures HasEnded (conclude w v rest)
  conclude-HasEnded none rest h k = k
  conclude-HasEnded (some (s, e)) rest h k = transition-HasEnded s e (h s e refl)

  judge-HasEnded :
      (c : ToolConfig) (p : Option Payload) (rest : Action (Unit {0}))
      → Ensures HasEnded rest
      → Ensures HasEnded (judge w c p rest)
  unfolding judge
  judge-HasEnded c none rest h = h
  judge-HasEnded c (some p) rest h = bind-Ensures HasEnded _ _ (λ _.
      conclude-HasEnded (verdict c (lower_or_empty p.status)) rest
        (verdict-terminal c (lower_or_empty p.status)) h)

  poll-HasEnded :
      (fuel : ℕ) (c : ToolConfig) (elapsed : ℕ) → Ensures HasEnded (poll w fuel c elapsed)
  unfolding poll
  poll-HasEnded zero c elapsed = record { at = λ r a q. cc }
  poll-HasEnded (suc fuel) c elapsed = record {
    at = λ r a q.
        let rest = poll w fuel c (elapsed + c.poll_interval_seconds) in
        let round : Action (Unit {0}) = (do
          wait_for_news w
          p ← take_status w c
          judge w c p rest) in
        if_post HasEnded (not (ltb elapsed c.max_runtime_seconds)) _ _ a
          (λ _. (transition-HasEnded timed_out action_timed_out refl).at r a)
          (λ _.
            if_post HasEnded r.fields.is_cancel_requested _ _ a
              (λ _. (cancel_after_create-HasEnded c).at r a)
              (λ _.
                (bind-Ensures HasEnded (wait_for_news w) _ (λ _.
                    bind-Ensures HasEnded (take_status w c) _ (λ p.
                      judge-HasEnded c p rest
                        (poll-HasEnded fuel c (elapsed + c.poll_interval_seconds))))).at
                  r a))
          q;
  }

  after_create-HasEnded :
      (fuel : ℕ) (c : ToolConfig) (b : Bool) → Ensures HasEnded (after_create w fuel c b)
  unfolding after_create
  after_create-HasEnded fuel c true = cancel_after_create-HasEnded c
  after_create-HasEnded fuel c false = bind-Ensures HasEnded _ _ (λ _. poll-HasEnded fuel c 0)

  attempt-HasEnded : (fuel : ℕ) (c : ToolConfig) → Ensures HasEnded (attempt w fuel c)
  unfolding attempt
  attempt-HasEnded fuel c = search (ended_rules, after_create-HasEnded) depth 14

  failed_with :
      (f : DurableAction → DurableAction) (st : DurableActionState) (e : EventType)
      → is_terminal st ≡ true
      → Ensures HasEnded (modify f >> transition w st e)
  failed_with f st e h = bind-Ensures HasEnded _ _ (λ _. transition-HasEnded st e h)

  handled-HasEnded :
      (o : Outcome (Unit {0})) (r : ActionRun) (a : Unit {0})
      → (o ≡ returned a → HasEnded r)
      → (handle_error w o r).0 ≡ returned a
      → HasEnded (handle_error w o r).1
  unfolding pure
  handled-HasEnded (returned b) r a h q = h refl
  handled-HasEnded (raised timeout_error) r a h q =
      (failed_with _ timed_out action_timed_out refl).at r a q
  handled-HasEnded (raised (activity_error m)) r a h q =
      (failed_with _ failed action_failed refl).at r a q
  handled-HasEnded out_of_fuel r a h q = cc

  -- When the workflow returns, the state of the action that it returns is terminal, and it is the one
  -- that the store was told last.
  pub run_workflow-HasEnded :
      (c : ToolConfig) (fuel : ℕ) (s : DurableAction)
      → (run_workflow w fuel c (start w init)).0 ≡ returned s
      → (is_terminal s.state ≡ true)
        × (last_told (run_workflow w fuel c (start w init)).1.calls ≡ some s.state)
  unfolding run_workflow ◌>>=◌ gets
  run_workflow-HasEnded c fuel s q =
      let (o, r) = transition w requested action_requested (start w init) in
      let (o', r') = attempt w fuel c r in
      let (o'', r'') = handle_error w o' r' in
      let Told : ActionRun → Type 0 =
        λ r. (is_terminal s.state ≡ true) × (last_told r.calls ≡ some s.state) in
      continue_post Told o _ r s
        (λ b p. continue_post Told o'' _ r'' s λ c' p' k.
          let e = handled-HasEnded o' r' c' (λ k. (attempt-HasEnded fuel c).at r c' k) p' in
          ground (arith, e.terminal, e.told))
        q

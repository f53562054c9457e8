-- ===== src/Worker/Action/Total.antt =====
-- A durable action comes to an end: the seconds that a round waits count against the longest runtime.
use voice_mesh.Prelude.{
  ℕ, zero, suc, ◌+◌, ◌-◌, ◌≤◌, ◌<◌, ◌≢◌, refl, Bool, true, false, not, Option, none, some, arith,
  ltb,
}
use voice_mesh.Prelude.Lower.{lower_or_empty}
use voice_mesh.Worker.Flow.{
  timeout_error, activity_error, Outcome, returned, raised, out_of_fuel, World, wait_condition,
  deliver, start,
}
use voice_mesh.Worker.Flow.Rules.{
  Ends, bind-Ends, if_ends, pure-Ends, modify-Ends, gets-Ends, ends_rules,
}
use voice_mesh.Worker.Action.{
  DurableActionState, EventType, timed_out, action_timed_out, ToolConfig, Payload, Signal, Activity,
  signal, Action, ActionRun, verdict, conclude, transition, cancel_outcome, cancel_after_create,
  judge, poll, after_create, attempt, handle_error, guarded, run_workflow, wait_for_news, init,
  take_status, look_up, stirred, ignore_timeout,
}

module _ (w : World Signal Activity Payload) where
  transition-Ends : (st : DurableActionState) (e : EventType) → Ends (transition w st e)
  unfolding transition
  transition-Ends st e = search ends_rules depth 16

  cancel_outcome-Ends : (p : Payload) → Ends (cancel_outcome w p)
  unfolding cancel_outcome
  cancel_outcome-Ends p = search (ends_rules, transition-Ends) depth 16

  cancel_after_create-Ends : (c : ToolConfig) → Ends (cancel_after_create w c)
  unfolding cancel_after_create
  cancel_after_create-Ends c = search (ends_rules, transition-Ends, cancel_outcome-Ends) depth 20

  ignored-ne :
      (o : Outcome (Unit {0})) (r : ActionRun)
      → o ≢ out_of_fuel
      → (ignore_timeout w o r).0 ≢ out_of_fuel
  ignored-ne (returned a) r n = n
  ignored-ne (raised timeout_error) r n = λ e. cc
  ignored-ne (raised (activity_error m)) r n = n
  ignored-ne out_of_fuel r n = n

  wait_for_news-Ends : Ends (wait_for_news w)
  unfolding wait_for_news wait_condition
  wait_for_news-Ends = record {
    ends = λ r.
        let (o, r') = wait_condition signal stirred r in
        ignored-ne o r' (
          if_ends (stirred r.fields) _ _ (λ _ e. cc)
            (λ _. if_ends (stirred (deliver signal r).fields) _ _ (λ _ e. cc) (λ _ e. cc)));
  }

  look_up-Ends : (b : Bool) (p : Option Payload) → Ends (look_up w b p)
  unfolding look_up
  look_up-Ends b (some p) = pure-Ends (some p)
  look_up-Ends b none = search ends_rules depth 16

  take_status-Ends : (c : ToolConfig) → Ends (take_status w c)
  unfolding take_status
  take_status-Ends c = search (ends_rules, look_up-Ends) depth 16

  conclude-Ends :
      (v : Option (DurableActionState × EventType)) (rest : Action (Unit {0}))
      → Ends rest
      → Ends (conclude w v rest)
  conclude-Ends none rest k = k
  conclude-Ends (some (s, e)) rest k = transition-Ends s e

  judge-Ends :
      (c : ToolConfig) (p : Option Payload) (rest : Action (Unit {0}))
      → Ends rest
      → Ends (judge w c p rest)
  unfolding judge
  judge-Ends c none rest h = h
  judge-Ends c (some p) rest h =
      bind-Ends _ _ (modify-Ends _)
        (λ _. conclude-Ends (verdict c (lower_or_empty p.status)) rest h)

  -- Rounds enough for the seconds that are left.
  poll-Ends :
      (fuel : ℕ) (c : ToolConfig) (elapsed : ℕ)
      → 1 ≤ c.poll_interval_seconds
      → c.max_runtime_seconds - elapsed < fuel
      → Ends (poll w fuel c elapsed)
  unfolding poll
  poll-Ends zero c elapsed h k = absurd (omega arith)
  poll-Ends (suc fuel) c elapsed h k = record {
    ends = λ r.
        let next = elapsed + c.poll_interval_seconds in
        if_ends (not (ltb elapsed c.max_runtime_seconds)) _ _
          (λ _. (transition-Ends timed_out action_timed_out).ends r)
          (λ b.
            if_ends r.fields.is_cancel_requested _ _ (λ _. (cancel_after_create-Ends c).ends r)
              (λ _.
                (bind-Ends _ _ wait_for_news-Ends (λ _. bind-Ends _ _ (take_status-Ends c) (λ p.
                    judge-Ends c p (poll w fuel c next)
                      (poll-Ends fuel c next h (ground arith))))).ends
                  r));
  }

  after_create-Ends :
      (fuel : ℕ) (c : ToolConfig) (b : Bool)
      → 1 ≤ c.poll_interval_seconds
      → c.max_runtime_seconds < fuel
      → Ends (after_create w fuel c b)
  unfolding after_create
  after_create-Ends fuel c true h k = cancel_after_create-Ends c
  after_create-Ends fuel c false h k =
      bind-Ends _ _ (transition-Ends _ _) (λ _. poll-Ends fuel c 0 h (omega arith))

  attempt-Ends :
      (fuel : ℕ) (c : ToolConfig)
      → 1 ≤ c.poll_interval_seconds
      → c.max_runtime_seconds < fuel
      → Ends (attempt w fuel c)
  unfolding attempt
  attempt-Ends fuel c h k = search (ends_rules, transition-Ends, after_create-Ends, h, k) depth 20

  handled-Ends : (o : Outcome (Unit {0})) → o ≢ out_of_fuel → Ends (handle_error w o)
  handled-Ends (returned a) n = pure-Ends tt
  handled-Ends (raised timeout_error) n = bind-Ends _ _ (modify-Ends _) (λ _. transition-Ends _ _)
  handled-Ends (raised (activity_error m)) n =
      bind-Ends _ _ (modify-Ends _) (λ _. transition-Ends _ _)
  handled-Ends out_of_fuel n = absurd (n refl)

  guarded-Ends :
      (fuel : ℕ) (c : ToolConfig)
      → 1 ≤ c.poll_interval_seconds
      → c.max_runtime_seconds < fuel
      → Ends (guarded w fuel c)
  guarded-Ends fuel c h k = record {
    ends = λ r.
        let (o, r') = attempt w fuel c r in
        (handled-Ends o ((attempt-Ends fuel c h k).ends r)).ends r';
  }

  -- With a poll interval of at least one second, one round more than the longest runtime has seconds
  -- is enough for the workflow to end, whatever the activities answer and whichever signals come.
  pub run_workflow-Ends :
      (c : ToolConfig) (fuel : ℕ)
      → 1 ≤ c.poll_interval_seconds
      → c.max_runtime_seconds < fuel
      → (run_workflow w fuel c (start w init)).0 ≢ out_of_fuel
  unfolding run_workflow
  run_workflow-Ends c fuel h k =
      (bind-Ends _ _ (transition-Ends _ _)
          (λ _. bind-Ends _ _ (guarded-Ends fuel c h k) (λ _. gets-Ends _))).ends
        (start w init)

-- ===== src/Worker/Action/Cancelling.antt =====
-- The tool is asked to cancel only for a cancel request, by one activity.
use voice_mesh.Prelude.{
  bit, ℕ, zero, suc, ◌+◌, ◌*◌, ◌≤◌, ◌≡◌, refl, ap, String, Bool, true, false, not, Option, none,
  some, arith, if◌then◌else◌, ltb,
}
use voice_mesh.Prelude.Lower.{lower_or_empty}
use voice_mesh.Worker.Flow.{World, head_signals, ◌>>=◌, gets, modify, execute, deliver, start}
use voice_mesh.Worker.Flow.Rules.{continue_kept, if_kept, if_kept_cases}
use voice_mesh.Worker.Action.{
  maximum_attempts, DurableActionState, EventType, requested, cancel_in_flight, create_in_flight,
  active, timed_out, cannot_cancel, action_cannot_cancel, action_requested, cancel_started,
  create_started, accepted, action_timed_out, ToolConfig, Payload, Signal, Activity,
  cancel_external_action, create_external_action, signal, Action, ActionRun, verdict, conclude,
  transition, cancel_after_create, judge, poll, after_create, attempt, handle_error, run_workflow,
  wait_for_news, take_status, init, or_old,
}
use voice_mesh.Worker.Action.Stable.{
  cancels, cancel_tries, cancel_tries_bound, IsCalm, IsFine, IsWarned, requested-signals,
  IsCalm-IsStable, IsFine-IsStable, IsWarned-IsStable, execute-Keeps, transition-Keeps,
  cancel_outcome-Keeps, wait_for_news-Keeps, take_status-Keeps, handled-Keeps,
}

module _ (w : World Signal Activity Payload) where
  calm-IsFine : (r : ActionRun) → IsCalm r → IsFine r
  calm-IsFine r h = omega (arith, h)

  warned-IsFine : (r : ActionRun) → IsWarned r → IsFine r
  warned-IsFine r h = omega (arith, h.0)

  asked-IsFine :
      (i reason : Option String) (r : ActionRun)
      → IsWarned r
      → IsFine (execute w signal (cancel_external_action i reason) r).1
  unfolding execute deliver
  asked-IsFine i reason r h =
      omega (arith, h.0, h.1, requested-signals r.fields (head_signals r.coming))

  if_flow :
      (b : Bool) (m n : Action (Unit {0})) (r : ActionRun)
      → IsFine (m r).1
      → IsFine (n r).1
      → IsFine ((if b then m else n) r).1
  if_flow true m n r h k = h
  if_flow false m n r h k = k

  cancel_after_create-IsFine :
      (c : ToolConfig) (r : ActionRun) → IsWarned r → IsFine (cancel_after_create w c r).1
  unfolding cancel_after_create ◌>>=◌ gets modify
  cancel_after_create-IsFine c r h =
      let (o, r₁) = transition w cancel_in_flight cancel_started r in
      let h₁ =
        (transition-Keeps w IsWarned IsWarned-IsStable cancel_in_flight cancel_started).kept r h in
      let asked = cancel_external_action r₁.fields.external_request_id r₁.fields.cancel_reason in
      let (o', r₂) = execute w signal asked r₁ in
      let h₂ = asked-IsFine r₁.fields.external_request_id r₁.fields.cancel_reason r₁ h₁ in
      if_flow (not c.has_cancel) _ _ r
        (warned-IsFine (transition w cannot_cancel action_cannot_cancel r).1 (
          (transition-Keeps w IsWarned IsWarned-IsStable cannot_cancel action_cannot_cancel).kept r
            h))
        (continue_kept IsFine o _ r₁ (warned-IsFine r₁ h₁) (λ _ _.
          continue_kept IsFine o' _ r₂ h₂
            (λ result _. (cancel_outcome-Keeps w IsFine IsFine-IsStable result).kept _ h₂)))

  conclude-IsFine :
      (v : Option (DurableActionState × EventType)) (rest : Action (Unit {0})) (r : ActionRun)
      → IsCalm r
      → ((s : ActionRun) → IsCalm s → IsFine (rest s).1)
      → IsFine (conclude w v rest r).1
  conclude-IsFine none rest r h k = k r h
  conclude-IsFine (some (s, e)) rest r h k =
      calm-IsFine (transition w s e r).1 ((transition-Keeps w IsCalm IsCalm-IsStable s e).kept r h)

  judge-IsFine :
      (c : ToolConfig) (p : Option Payload) (rest : Action (Unit {0})) (r : ActionRun)
      → IsCalm r
      → ((s : ActionRun) → IsCalm s → IsFine (rest s).1)
      → IsFine (judge w c p rest r).1
  unfolding judge ◌>>=◌
  judge-IsFine c none rest r h k = k r h
  judge-IsFine c (some p) rest r h k =
      conclude-IsFine (verdict c (lower_or_empty p.status)) rest
        (record r { fields = record r.fields { message = or_old p.message r.fields.message } }) h k

  poll-IsFine :
      (fuel : ℕ) (c : ToolConfig) (elapsed : ℕ) (r : ActionRun)
      → IsCalm r
      → IsFine (poll w fuel c elapsed r).1
  unfolding poll ◌>>=◌
  poll-IsFine zero c elapsed r h = calm-IsFine r h
  poll-IsFine (suc fuel) c elapsed r h =
      let ends = (transition-Keeps w IsCalm IsCalm-IsStable timed_out action_timed_out).kept r h in
      let (o, r₁) = wait_for_news w r in
      let h₁ = (wait_for_news-Keeps w IsCalm IsCalm-IsStable).kept r h in
      let (o', r₂) = take_status w c r₁ in
      let h₂ = (take_status-Keeps w IsCalm IsCalm-IsStable c).kept r₁ h₁ in
      let next = elapsed + c.poll_interval_seconds in
      if_kept IsFine (not (ltb elapsed c.max_runtime_seconds)) _ _
        (calm-IsFine (transition w timed_out action_timed_out r).1 ends)
        (if_kept_cases IsFine r.fields.is_cancel_requested _ _
          (λ e. cancel_after_create-IsFine c r (h, ap bit e))
          (λ _. continue_kept IsFine o _ r₁ (calm-IsFine r₁ h₁) (λ _ _.
            continue_kept IsFine o' _ r₂ (calm-IsFine r₂ h₂)
              (λ p _. judge-IsFine c p (poll w fuel c next) r₂ h₂ (poll-IsFine fuel c next)))))

  after_create-IsFine :
      (fuel : ℕ) (c : ToolConfig) (b : Bool) (r : ActionRun)
      → IsCalm r
      → r.fields.is_cancel_requested ≡ b
      → IsFine (after_create w fuel c b r).1
  unfolding after_create ◌>>=◌
  after_create-IsFine fuel c true r h e = cancel_after_create-IsFine c r (h, ap bit e)
  after_create-IsFine fuel c false r h e =
      let (o, r₁) = transition w active accepted r in
      let h₁ = (transition-Keeps w IsCalm IsCalm-IsStable active accepted).kept r h in
      continue_kept IsFine o _ r₁ (calm-IsFine r₁ h₁) (λ _ _. poll-IsFine fuel c 0 r₁ h₁)

  attempt-IsFine :
      (fuel : ℕ) (c : ToolConfig) (r : ActionRun) → IsCalm r → IsFine (attempt w fuel c r).1
  unfolding attempt ◌>>=◌ gets modify
  attempt-IsFine fuel c r h =
      let (o, r₁) = transition w create_in_flight create_started r in
      let h₁ =
        (transition-Keeps w IsCalm IsCalm-IsStable create_in_flight create_started).kept r h in
      let (o', r₂) = execute w signal create_external_action r₁ in
      let h₂ = (execute-Keeps w IsCalm IsCalm-IsStable create_external_action refl).kept r₁ h₁ in
      continue_kept IsFine o _ r₁ (calm-IsFine r₁ h₁) (λ _ _.
        continue_kept IsFine o' _ r₂ (calm-IsFine r₂ h₂) (λ created _.
          after_create-IsFine fuel c r₂.fields.is_cancel_requested
            (record r₂ {
              fields = record r₂.fields {
                external_request_id = created.external_request_id;
                message = created.message;
              };
            })
            h₂ refl))

  workflow-IsFine : (c : ToolConfig) (fuel : ℕ) → IsFine (run_workflow w fuel c (start w init)).1
  unfolding run_workflow ◌>>=◌ gets
  workflow-IsFine c fuel =
      let r₀ = start w init in
      let (o, r₁) = transition w requested action_requested r₀ in
      let h₁ =
        (transition-Keeps w IsCalm IsCalm-IsStable requested action_requested).kept r₀
          (unfold start in refl) in
      let (o', r₂) = attempt w fuel c r₁ in
      let h₂ = attempt-IsFine fuel c r₁ h₁ in
      let (o'', r₃) = handle_error w o' r₂ in
      let h₃ = (handled-Keeps w IsFine IsFine-IsStable o').kept r₂ h₂ in
      continue_kept IsFine o _ r₁ (calm-IsFine r₁ h₁)
        (λ _ _. continue_kept IsFine o'' _ r₃ h₃ (λ _ _. h₃))

  -- Whatever the activities answer and whenever signals come, a run of the workflow starts the activity
  -- that asks the tool to cancel at most once, and never unless a cancel request came. Where Temporal
  -- keeps to the retry policy, it tries that activity at most five times in all.
  pub run_workflow-cancels :
      (c : ToolConfig) (fuel : ℕ) (tries : ℕ → ℕ)
      → ((k : ℕ) → tries k ≤ maximum_attempts)
      → let r = (run_workflow w fuel c (start w init)).1 in
        (cancels r.calls ≤ bit r.fields.is_cancel_requested)
        × (cancel_tries tries r.calls ≤ maximum_attempts * bit r.fields.is_cancel_requested)
  run_workflow-cancels c fuel tries h =
      let r = (run_workflow w fuel c (start w init)).1 in
      let once = workflow-IsFine c fuel in
      (once, omega (arith, once, cancel_tries_bound tries r.calls h))

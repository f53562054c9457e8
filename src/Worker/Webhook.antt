-- ===== src/Worker/Webhook.antt =====
-- apps/worker/durable_workflows.py: WebhookDeliveryWorkflow, which has no signals.
pub mod Delivered
mod Tests
use voice_mesh.Prelude.{
  ℕ, zero, suc, ◌+◌, ◌*◌, String, Bool, true, false, Option, none, some, ◌==◌, if◌then◌else◌,
  or_text,
}
use voice_mesh.Worker.Flow.{
  Answer, World, Run, Flow, ◌>>=◌, ◌>>◌, pure, gets, modify, execute, sleep, start,
}

pub data WebhookState : Type 0 where
  requested delivering delivered failed : WebhookState

pub record WebhookDelivery : Type 0 where
  pub state : WebhookState
  pub attempt_count : ℕ
  pub last_error : Option String

-- `persist_webhook_delivery` has no attempts the first time; a timer is noted among the activities.
pub data Activity : Type 0 where
  persist_webhook_delivery : WebhookState → Option ℕ → Option String → Activity
  deliver_webhook : ℕ → Activity
  timer : ℕ → Activity

pub record Reply : Type 0 where
  pub success : Bool
  pub error : Option String

pub record Returned : Type 0 where
  pub state : WebhookState
  pub attempts : ℕ

abbrev pub Action : Type 0 → Type 0
Action A = Flow WebhookDelivery ⊥ Activity A

abbrev pub WebhookRun : Type 0
WebhookRun = Run WebhookDelivery ⊥ Activity

unfoldable pub init : WebhookDelivery
init = record { state = requested; attempt_count = 0; last_error = none }

abbrev pub no_signal : WebhookDelivery → ⊥ → WebhookDelivery
no_signal s e = s

module _ (w : World ⊥ Activity Reply) where
  abbrev pub activity : Activity → Action Reply
  activity = execute w no_signal

  -- After the last attempt.
  unfoldable pub give_up : Action Returned
  give_up = do
    modify (λ s. record s { state = failed })
    s ← gets (λ s. s)
    activity (persist_webhook_delivery s.state (some s.attempt_count) s.last_error)
    gets (λ s. record { state = s.state; attempts = s.attempt_count })

  unfoldable pub succeed : ℕ → Action Returned
  succeed attempt = do
    modify (λ s. record s { state = delivered })
    activity (persist_webhook_delivery delivered (some attempt) none)
    gets (λ s. record { state = s.state; attempts = attempt })

  unfoldable pub back_off : ℕ → Action (Unit {0})
  back_off seconds = if seconds == 0 then pure tt else sleep no_signal (timer seconds)

  -- The loop from `attempt` on, with `left` attempts left.
  unfoldable pub deliver_from : ℕ → ℕ → ℕ → Action Returned
  deliver_from backoff zero attempt = give_up
  deliver_from backoff (suc left) attempt =
      let rest = deliver_from backoff left (suc attempt) in
      let failed_once : Reply → Action Returned = (λ result. do
        modify (λ s. record s { last_error = some (or_text result.error "webhook failed") })
        back_off (if backoff == 0 then 0 else backoff * attempt)
        rest) in
      do
        modify (λ s. record s { state = delivering; attempt_count = attempt })
        result ← activity (deliver_webhook attempt)
        if result.success then succeed attempt else failed_once result

  unfoldable pub run_workflow : ℕ → ℕ → Action Returned
  run_workflow max_attempts backoff = do
    s ← gets (λ s. s)
    activity (persist_webhook_delivery s.state none none)
    deliver_from backoff max_attempts 1

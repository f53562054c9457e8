-- ===== src/Worker/Billing.antt =====
-- apps/worker/durable_workflows.py: BillingFinalizationWorkflow. What the input carries beside the
-- fields below is the same for all of a run, and left out, as is `present_usage_types`' sorting.
pub mod Ready
pub mod Grounded
pub mod FromTables
pub mod Total
mod Tests
use voice_mesh.Prelude.{
  ℕ, zero, suc, ◌+◌, String, Bool, true, false, not, ◌&&◌, Option, none, some, List, [], ◌∷◌, snoc,
  max, ltb, leb, ◌==◌, if◌then◌else◌, truthy, or_text, add_text,
}
use voice_mesh.Worker.Flow.{
  Answer, Error, timeout_error, activity_error, Outcome, returned, raised, out_of_fuel, World, Run,
  Flow, ◌>>=◌, ◌>>◌, pure, gets, modify, execute, wait_condition, start,
}

pub data BillingState : Type 0 where
  waiting_for_call_end waiting_for_manifest waiting_for_projection waiting_for_usage : BillingState
  finalizing finalized finalized_with_warnings failed needs_review : BillingState

pub record BillingConfig : Type 0 where
  pub wait_timeout_seconds : ℕ
  pub settle_seconds : ℕ
  pub missing_usage_policy : BillingState

pub record Billing : Type 0 where
  pub state : BillingState
  pub call_ended : Bool
  pub present_usage_types : List String
  pub missing_usage_types : List String
  pub missing_expectations : List String
  pub manifest_present : Bool
  pub projection_caught_up : Bool
  pub projection_update_count : ℕ
  pub warnings : List String
  pub total_cost_cents : Option ℕ

pub data Signal : Type 0 where
  call_ended_signal : Signal
  usage_recorded : Option String → Signal
  usage_projection_updated : Signal

-- The request of `finalize_call_billing`.
pub record Finalization : Type 0 where
  pub missing_usage_types : List String
  pub missing_expectations : List String
  pub manifest_missing : Bool
  pub projection_caught_up : Bool
  pub status : BillingState

pub data Activity : Type 0 where
  load_billing_readiness : Activity
  finalize_call_billing : Finalization → Activity
  emit_workflow_event : Activity

-- The keys of the activities' replies that the workflow reads.
pub record Reply : Type 0 where
  pub manifest_present : Bool
  pub projection_caught_up : Bool
  pub present_usage_types : List String
  pub missing_usage_types : List String
  pub missing_expectations : List String
  pub total_cost_cents : ℕ
  pub warnings : List String
  pub status : BillingState

unfoldable pub init : Bool → Billing
init call_ended = record {
  state = waiting_for_call_end;
  call_ended = call_ended;
  present_usage_types = [];
  missing_usage_types = [];
  missing_expectations = [];
  manifest_present = false;
  projection_caught_up = false;
  projection_update_count = 0;
  warnings = [];
  total_cost_cents = none;
}

abbrev noted : Option String → List String → List String
noted none ts = ts
noted (some t) ts = if truthy (some t) then add_text t ts else ts

abbrev pub signal : Billing → Signal → Billing
signal b call_ended_signal = record b { call_ended = true }
signal b (usage_recorded usage_type) = record b {
  present_usage_types = noted usage_type b.present_usage_types;
  projection_update_count = suc b.projection_update_count;
}
signal b usage_projection_updated = record b {
  projection_update_count = suc b.projection_update_count;
}

abbrev pub Action : Type 0 → Type 0
Action A = Flow Billing Signal Activity A

abbrev pub BillingRun : Type 0
BillingRun = Run Billing Signal Activity

abbrev pub none_missing : List String → Bool
none_missing [] = true
none_missing (_ ∷ _) = false

-- The test `ready`.
abbrev pub is_ready : Billing → Bool
is_ready b =
    b.manifest_present
    && b.projection_caught_up
    && none_missing b.missing_usage_types
    && none_missing b.missing_expectations

abbrev waiting_state : Billing → BillingState
waiting_state b =
    if not b.manifest_present
    then waiting_for_manifest
    else if not b.projection_caught_up
    then waiting_for_projection
    else waiting_for_usage

-- `max(1, settle_seconds or 2)`
abbrev pub wait_seconds : BillingConfig → ℕ
wait_seconds c = max 1 (if c.settle_seconds == 0 then 2 else c.settle_seconds)

module _ (w : World Signal Activity Reply) where
  abbrev pub activity : Activity → Action Reply
  activity = execute w signal

  -- Loads the readiness, and says whether the call is ready.
  unfoldable pub load_readiness : Action Bool
  load_readiness = do
    reply ← activity load_billing_readiness
    modify (λ b. record b {
      manifest_present = reply.manifest_present;
      projection_caught_up = reply.projection_caught_up;
      present_usage_types = reply.present_usage_types;
      missing_usage_types = reply.missing_usage_types;
      missing_expectations = reply.missing_expectations;
    })
    gets is_ready

  abbrev pub ignore_timeout : Outcome (Unit {0}) → Action (Unit {0})
  ignore_timeout (raised timeout_error) r = (returned tt, r)
  ignore_timeout o r = (o, r)

  -- The wait for a projection update after the `observed` ones, its TimeoutError passed over.
  unfoldable pub wait_for_update : ℕ → Action (Unit {0})
  wait_for_update observed r =
      let (o, r') = wait_condition signal (λ b. ltb observed b.projection_update_count) r in
      ignore_timeout o r'

  -- The end of a round that found the call not ready.
  unfoldable pub wait_round : Action (Unit {0})
  wait_round = do
    modify (λ b. record b { state = waiting_state b })
    observed ← gets (λ b. b.projection_update_count)
    wait_for_update observed

  -- `while elapsed <= deadline`, for at most `fuel` rounds; it returns `ready`.
  unfoldable pub settle : ℕ → BillingConfig → ℕ → Action Bool
  settle zero c elapsed r = (out_of_fuel, r)
  settle (suc fuel) c elapsed r =
      let rest = settle fuel c (elapsed + wait_seconds c) in
      let round : Action Bool = (do
        ready ← load_readiness
        if ready then pure true else (do wait_round; rest)) in
      if leb elapsed c.wait_timeout_seconds then round r else (returned false, r)

  unfoldable pub finalize : BillingConfig → Bool → Action (Unit {0})
  finalize c ready = do
    modify (λ b. record b { state = finalizing })
    b ← gets (λ b. b)
    result ← activity (
        finalize_call_billing (record {
          missing_usage_types = b.missing_usage_types;
          missing_expectations = b.missing_expectations;
          manifest_missing = not b.manifest_present;
          projection_caught_up = b.projection_caught_up;
          status = if ready then finalized else c.missing_usage_policy;
        }))
    modify (λ b. record b {
      total_cost_cents = some result.total_cost_cents;
      warnings = result.warnings;
      state = result.status;
    })
    activity emit_workflow_event
    pure tt

  -- The body of the `try` in `run`.
  unfoldable pub attempt : ℕ → BillingConfig → Action (Unit {0})
  attempt fuel c = do
    wait_condition signal (λ b. b.call_ended)
    ready ← settle fuel c 0
    finalize c ready

  abbrev pub error_text : Error → String
  error_text timeout_error = ""
  error_text (activity_error m) = m

  -- `except Exception`
  abbrev pub handle_error : Outcome (Unit {0}) → Action (Unit {0})
  handle_error (raised e) =
      modify (λ b. record b { state = failed; warnings = snoc b.warnings (error_text e) })
  handle_error (returned a) = pure tt
  handle_error out_of_fuel = λ r. (out_of_fuel, r)

  abbrev pub guarded : ℕ → BillingConfig → Action (Unit {0})
  guarded fuel c r = let (o, r') = attempt fuel c r in handle_error o r'

  unfoldable pub run_workflow : ℕ → BillingConfig → Action Billing
  run_workflow fuel c = do guarded fuel c; gets (λ b. b)

-- ===== src/Worker/Billing/Tests.antt =====
-- The billing workflow's theorems, for a call whose usage is complete at the second look.
use voice_mesh.Prelude.{ℕ, ◌≡◌, refl, Bool, true, false, none, [], ◌∷◌, arith, ◌==◌, if◌then◌else◌}
use voice_mesh.Prelude.Dict.{lookup}
use voice_mesh.Events.Offsets.{TopicPartition, offset_at}
use voice_mesh.Events.Tables.{Database, Manifest}
use voice_mesh.Events.Samples.{empty}
use voice_mesh.Worker.Activities.{BillingInput}
use voice_mesh.Worker.Activities.Readiness.{IsComplete}
use voice_mesh.Worker.Billing.Grounded.{was_finalized}
use voice_mesh.Worker.Billing.FromTables.{tables_world, run_workflow-IsComplete}
use voice_mesh.Worker.Flow.{Answer, reply, World, start, ◌>>=◌, wait_condition, execute}
use voice_mesh.Worker.Billing.{
  BillingConfig, finalized, finalized_with_warnings, Signal, Activity, load_billing_readiness,
  Reply, init, run_workflow, attempt, settle, load_readiness, wait_round, wait_for_update, finalize,
}
use voice_mesh.Worker.Billing.Total.{IsReturned, run_workflow-IsReturned}
use voice_mesh.Worker.Billing.Ready.{AllComplete, run_workflow-AllComplete}

abbrev config : BillingConfig
config = record {
  wait_timeout_seconds = 20;
  settle_seconds = 3;
  missing_usage_policy = finalized_with_warnings;
}

abbrev readiness : Bool → Reply
readiness caught_up = record {
  manifest_present = true;
  projection_caught_up = caught_up;
  present_usage_types = [];
  missing_usage_types = [];
  missing_expectations = [];
  total_cost_cents = 12;
  warnings = [];
  status = finalized;
}

abbrev answer_of : ℕ → Activity → Answer Reply
answer_of n load_billing_readiness =
    if n == 0 then reply (readiness false) else reply (readiness true)
answer_of n _ = reply (readiness true)

abbrev prompt : World Signal Activity Reply
prompt = record { script = []; answer = answer_of }

run_workflow-IsReturned_example :
    IsReturned (run_workflow prompt 22 config (start prompt (init true))).0
run_workflow-IsReturned_example = run_workflow-IsReturned prompt config 22 true (omega arith)

run_workflow-AllComplete_example :
    AllComplete (run_workflow prompt 22 config (start prompt (init true))).1.calls
run_workflow-AllComplete_example = run_workflow-AllComplete prompt config 22 true refl

abbrev request : BillingInput
request = record {
  call_id = "c1";
  tenant_id = "org";
  assistant_id = "a";
  pricing_version = "v1";
  consumer_group = "g";
  required_usage_types = [];
  missing_usage_types = [];
  missing_expectations = [];
  manifest_missing = false;
  projection_caught_up = true;
  status = "FINALIZED";
  source_event_id = none;
  reason = "";
}

abbrev usage_0 : TopicPartition
usage_0 = record { topic = "usage-events"; partition = 0 }

abbrev barrier : Manifest
barrier = record {
  tenant_id = "org";
  assistant_id = "a";
  event_id = "e9";
  barrier = usage_0;
  barrier_offset = 4;
  expected_turns = [];
  trace_id = none;
  created_at = 0;
}

-- The barrier is projected between the first look and the second.
abbrev tables : ℕ → Database ℕ
tables n = if n == 0 then empty else record empty {
  call_usage_manifests = ("c1", barrier) ∷ [];
  projection_watermarks = ("g", (usage_0, 4) ∷ []) ∷ [];
}

abbrev projected : World Signal Activity Reply
projected = tables_world [] (λ n a. reply (readiness true)) request tables

asked :
    was_finalized (run_workflow projected 22 config (start projected (init true))).1.calls ≡ true
unfolding run_workflow ◌>>=◌ attempt wait_condition start init settle load_readiness execute
    voice_mesh.Worker.Activities.Readiness.load_billing_readiness lookup wait_round wait_for_update
    offset_at finalize
asked = refl

run_workflow-IsComplete_example :
    (n : ℕ) × (m : Manifest) × (mark : ℕ) × IsComplete request (tables n) m mark
run_workflow-IsComplete_example =
    run_workflow-IsComplete [] (λ n a. reply (readiness true)) request tables config 22 true refl
      asked

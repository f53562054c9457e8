-- ===== src/Worker/Billing/FromTables.antt =====
-- BillingFinalizationWorkflow of apps/worker/durable_workflows.py with load_billing_readiness of
-- apps/worker/activities.py, on tables that change while it runs.
use voice_mesh.Prelude.{ℕ, String, ◌≡◌, refl, Bool, true, false, List, [], ◌∷◌, arith, subst, sym}
use voice_mesh.Events.Tables.{Database, Manifest}
use voice_mesh.Worker.Flow.{Answer, reply, failure, World, start}
use voice_mesh.Worker.Activities.{BillingInput}
use voice_mesh.Worker.Activities.Readiness as Tables
use voice_mesh.Worker.Activities.Readiness.{
  BillingReadiness, is_empty, IsComplete, load_billing_readiness_exact,
}
use voice_mesh.Worker.Billing.{
  BillingConfig, failed, Signal, Activity, load_billing_readiness, Reply, none_missing,
  run_workflow, init, is_ready,
}
use voice_mesh.Worker.Billing.Ready.{is_finalized}
use voice_mesh.Worker.Billing.Grounded.{
  was_finalized, says_ready, grounded_finalized, run_workflow-IsGrounded,
}

-- The reply as the workflow reads it; the last three keys are not in it.
abbrev readiness_reply : BillingReadiness → Reply
readiness_reply r = record {
  manifest_present = r.manifest_present;
  projection_caught_up = r.projection_caught_up;
  present_usage_types = r.present_usage_types;
  missing_usage_types = r.missing_usage_types;
  missing_expectations = r.missing_expectations;
  total_cost_cents = 0;
  warnings = [];
  status = failed;
}

-- Where an activity comes to a reply, it is this one.
abbrev with_reply : Answer Reply → Reply → Answer Reply
with_reply (failure m) a = failure m
with_reply (reply _) a = reply a

abbrev answer_from :
    (ℕ → Activity → Answer Reply) → BillingInput → (ℕ → Database ℕ) → ℕ → Activity → Answer Reply
answer_from ends i tables n load_billing_readiness =
    with_reply (ends n load_billing_readiness)
      (readiness_reply (Tables.load_billing_readiness i (tables n)))
answer_from ends i tables n activity = ends n activity

-- `tables n` are the tables when the activity of await n reads them; how activities end, and what the
-- others reply, is left open.
abbrev pub tables_world :
    List (List Signal)
    → (ℕ → Activity → Answer Reply)
    → BillingInput
    → (ℕ → Database ℕ)
    → World Signal Activity Reply
tables_world script ends i tables = record { script = script; answer = answer_from ends i tables }

nothing_missing : (ts : List String) → none_missing ts ≡ is_empty ts
nothing_missing [] = refl
nothing_missing (t ∷ ts) = refl

reply_ready :
    (r : BillingReadiness) → says_ready (readiness_reply r) ≡ true → Tables.is_ready r ≡ true
reply_ready r h =
    ground (arith, h, nothing_missing r.missing_usage_types, nothing_missing r.missing_expectations)

told :
    (x : Answer Reply) (r : BillingReadiness) (a : Reply)
    → with_reply x (readiness_reply r) ≡ reply a
    → says_ready a ≡ true
    → Tables.is_ready r ≡ true
told (failure m) r a e h = cc
told (reply b) r a e h =
    let same : readiness_reply r ≡ a = cc in
    reply_ready r (subst (λ x. says_ready x ≡ true) (sym same) h)

-- Unless the policy for missing usage is FINALIZED itself, a call is finalized as FINALIZED only if the
-- tables were complete for it at an await: its manifest was there, the projector's watermark had reached
-- the barrier, each expected usage had its event, and each required type was present.
pub run_workflow-IsComplete :
    (script : List (List Signal)) (ends : ℕ → Activity → Answer Reply) (i : BillingInput)
    (tables : ℕ → Database ℕ) (c : BillingConfig) (fuel : ℕ) (call_ended : Bool)
    → is_finalized c.missing_usage_policy ≡ false
    → let w = tables_world script ends i tables in
      was_finalized (run_workflow w fuel c (start w (init call_ended))).1.calls ≡ true
      → (n : ℕ) × (m : Manifest) × (mark : ℕ) × IsComplete i (tables n) m mark
run_workflow-IsComplete script ends i tables c fuel call_ended p asked =
    let C = (n : ℕ) × (m : Manifest) × (mark : ℕ) × IsComplete i (tables n) m mark in
    let w = tables_world script ends i tables in
    let tells : (n : ℕ) (a : Reply)
        → w.answer n load_billing_readiness ≡ reply a
        → says_ready a ≡ true
        → C =
      λ n a e h.
        let (m, mark, complete) = (load_billing_readiness_exact i (tables n)).0 (
          told (ends n load_billing_readiness) (Tables.load_billing_readiness i (tables n)) a e
            h) in
        (n, m, mark, complete) in
    let r = (run_workflow w fuel c (start w (init call_ended))).1 in
    grounded_finalized C (is_ready r.fields) (was_finalized r.calls) asked
      (run_workflow-IsGrounded C w tells c fuel call_ended p)

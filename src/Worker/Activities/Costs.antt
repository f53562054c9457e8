-- ===== src/Worker/Activities/Costs.antt =====
-- apps/worker/activities.py: the costs of a bill and `finalize_call_billing`.
use Prim.Native.String.{◌++◌}
use mathlib.Core.List.{◌++◌ as append}
use text.Mathlib.Text.{starts_with}
use voice_mesh.Prelude.{
  ℕ, ◌+◌, ◌-◌, ◌/◌, ◌==◌, String, Bool, true, false, not, ◌||◌, Option, none, some, List, [], ◌∷◌,
  if◌then◌else◌, str_eq,
}
use voice_mesh.Prelude.Lower.{codes, contains}
use voice_mesh.Prelude.Dict.{Dict, lookup, insert}
use voice_mesh.Prelude.Results.{Result, ok, err, runtime_error}
use voice_mesh.Events.Tables.{UsageRecord, Call, Billing}
use voice_mesh.Worker.Activities.{FinalBilling, Store, BillingInput}

-- `cents`: to the nearest cent, halves up.
unfoldable pub cents : ℕ → ℕ
cents amount = (amount + 50000000) / 100000000

pub data Component : Type 0 where
  stt llm tts telephony : Component

-- `part in text`
unfoldable pub is_in : String → String → Bool
is_in part text = contains (codes part) (codes text)

-- The branch of `_billing_component_costs` that a row takes.
unfoldable pub component_of : String → String → Component
component_of stage usage_type =
    if str_eq stage "stt" || starts_with usage_type "audio_"
    then stt
    else if str_eq stage "tts" || starts_with usage_type "input_text"
    then tts
    else if str_eq stage "llm" || is_in "token" usage_type
    then llm
    else if str_eq stage "transport" || str_eq stage "telephony" || is_in "telephony" usage_type
    then telephony
    else llm

pub record ComponentCosts : Type 0 where
  pub stt_cost : ℕ
  pub llm_cost : ℕ
  pub tts_cost : ℕ
  pub telephony_cost : ℕ

abbrev pub add_cost : Component → ℕ → ComponentCosts → ComponentCosts
add_cost stt n c = record c { stt_cost = c.stt_cost + n }
add_cost llm n c = record c { llm_cost = c.llm_cost + n }
add_cost tts n c = record c { tts_cost = c.tts_cost + n }
add_cost telephony n c = record c { telephony_cost = c.telephony_cost + n }

-- The loop of `_billing_component_costs` over the rows of the call, before the rounding.
unfoldable pub component_costs : String → List (UsageRecord ℕ) → ComponentCosts
unfolding component_of
component_costs call_id [] = record { stt_cost = 0; llm_cost = 0; tts_cost = 0; telephony_cost = 0 }
component_costs call_id (u ∷ us) =
    let rest = component_costs call_id us in
    if str_eq u.call_id call_id
    then add_cost (component_of u.stage u.usage_type) u.cost_usd rest
    else rest

-- `ended_at - started_at` in whole milliseconds, where both are known; 0 where it would be negative.
abbrev elapsed : Option ℕ → Option ℕ → ℕ
elapsed (some started) (some ended) = ended - started
elapsed _ _ = 0

abbrev pub duration_of : Option (Billing ℕ) → Call → ℕ
duration_of none c = elapsed c.started_at c.ended_at
duration_of (some b) c =
    if b.call_duration_seconds == 0
    then elapsed c.started_at c.ended_at
    else b.call_duration_seconds

-- `cents(duration_seconds / 60 * 0.05)`, on a duration in milliseconds: 5 cents a minute.
unfoldable pub platform_cents : ℕ → ℕ
platform_cents duration = (duration + 6000) / 12000

pub record Costs : Type 0 where
  pub platform_cost_cents : ℕ
  pub stt_cost_cents : ℕ
  pub llm_cost_cents : ℕ
  pub tts_cost_cents : ℕ
  pub telephony_cost_cents : ℕ

abbrev pub total_cents : Costs → ℕ
total_cents c =
    c.platform_cost_cents + c.stt_cost_cents + c.llm_cost_cents + c.tts_cost_cents
    + c.telephony_cost_cents

-- The costs as both `finalize_call_billing` and `create_billing_adjustment` compute them.
unfoldable pub call_costs : String → ℕ → List (UsageRecord ℕ) → Costs
unfolding cents platform_cents
call_costs call_id duration usage =
    let c = component_costs call_id usage in
    record {
      platform_cost_cents = platform_cents duration;
      stt_cost_cents = cents c.stt_cost;
      llm_cost_cents = cents c.llm_cost;
      tts_cost_cents = cents c.tts_cost;
      telephony_cost_cents = cents c.telephony_cost;
    }

abbrev prefixed : String → List String → List String
prefixed p [] = []
prefixed p (s ∷ ss) = (p ++ s) ∷ prefixed p ss

abbrev when : Bool → String → List String
when true s = s ∷ []
when false s = []

unfoldable pub warnings_of : BillingInput → List String
warnings_of i =
    let join = append in
    join (prefixed "missing usage: " i.missing_usage_types) (
      join (prefixed "missing expected turn usage: " i.missing_expectations) (
        join (when i.manifest_missing "missing usage finalization barrier") (
          when (not i.projection_caught_up)
            "usage projection watermark did not catch up before timeout")))

-- `COALESCE(finalized_at, NOW())` of the row that is there.
abbrev pub or_now : Option ℕ → ℕ → Option ℕ
or_now none now = some now
or_now (some t) now = some t

-- The INSERT of a final bill, which updates some columns of a row that is there.
unfoldable pub upsert_final : String → FinalBilling → ℕ → Dict FinalBilling → Dict FinalBilling
upsert_final call_id new now rows = elim (lookup call_id rows) [
  | none ↦ insert call_id (record new { finalized_at = some now }) rows
  | some old ↦
      insert call_id
        (record old {
          billable_seconds = new.billable_seconds;
          platform_cost_cents = new.platform_cost_cents;
          stt_cost_cents = new.stt_cost_cents;
          llm_cost_cents = new.llm_cost_cents;
          tts_cost_cents = new.tts_cost_cents;
          total_cost_cents = new.total_cost_cents;
          status = new.status;
          warnings = new.warnings;
          finalized_at = or_now old.finalized_at now;
        })
        rows
]

-- The row that `finalize_call_billing` inserts for a call.
unfoldable pub final_row : BillingInput → Call → Store → FinalBilling
unfolding call_costs warnings_of
final_row i c s =
    let duration = duration_of (lookup i.call_id s.projected.call_billing) c in
    let costs = call_costs i.call_id duration s.projected.usage_records in
    record {
      tenant_id = i.tenant_id;
      assistant_id = i.assistant_id;
      started_at = c.started_at;
      ended_at = c.ended_at;
      billable_seconds = (duration + 500) / 1000;
      platform_cost_cents = costs.platform_cost_cents;
      stt_cost_cents = costs.stt_cost_cents;
      llm_cost_cents = costs.llm_cost_cents;
      tts_cost_cents = costs.tts_cost_cents;
      telephony_cost_cents = costs.telephony_cost_cents;
      total_cost_cents = total_cents costs;
      pricing_version = i.pricing_version;
      status = i.status;
      warnings = warnings_of i;
      finalized_at = none;
    }

-- `finalize_call_billing`, with the row that its reply is made from.
unfoldable pub finalize_call_billing : BillingInput → ℕ → Store → Result (Store × FinalBilling)
unfolding upsert_final final_row
finalize_call_billing i now s = elim (lookup i.call_id s.projected.calls) [
  | none ↦ err runtime_error
  | some c ↦
      let row = final_row i c s in
      ok (record s { final_billing = upsert_final i.call_id row now s.final_billing }, row)
]

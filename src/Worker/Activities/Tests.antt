-- ===== src/Worker/Activities/Tests.antt =====
-- A call of one minute with one usage of each of two components.
use voice_mesh.Prelude.{ℕ, ◌≡◌, ◌↔◌, refl, String, true, false, none, some, [], ◌∷◌}
use voice_mesh.Prelude.Dict.{lookup, insert}
use voice_mesh.Prelude.Results.{ok}
use voice_mesh.Events.Offsets.{offset_at}
use voice_mesh.Events.Tables.{Database, Call, UsageRecord, Manifest}
use voice_mesh.Worker.Activities.{FinalBilling, Adjustment, Store, BillingInput}
use voice_mesh.Worker.Activities.Costs.{
  component_of, component_costs, final_row, upsert_final, finalize_call_billing, duration_of,
  or_now,
}
use voice_mesh.Worker.Activities.Totals.{
  AddsUp, IsExact, usage_cost, finalize_call_billing-IsExact, upsert_final-telephony,
}
use voice_mesh.Worker.Activities.Readiness.{
  load_billing_readiness, is_ready, IsComplete, load_billing_readiness_exact,
}
use voice_mesh.Worker.Activities.Adjusting.{
  adjustment_of, is_adjusted, create_billing_adjustment, create_billing_adjustment_once,
}

abbrev used : String → String → ℕ → UsageRecord ℕ
used stage usage_type cost = record {
  event_id = "e1";
  call_id = "c1";
  turn_id = "t1";
  stage = stage;
  provider = "openai";
  model = "m";
  usage_type = usage_type;
  quantity = 1;
  unit = "token";
  unit_price_usd = cost;
  cost_usd = cost;
  estimated = false;
  pricing_version = "v1";
  metadata = "";
  created_at = 0;
}

abbrev call : Call
call = record {
  status = "ended";
  started_at = some 1000;
  ended_at = some 61000;
  current_stage = "transport";
  corked = false;
  cork_reason = none;
  stt_provider = "openai";
  llm_provider = "openai";
  tts_provider = "openai";
  stt_model = none;
  llm_model = none;
  tts_model = none;
  organization_id = none;
  agent_id = none;
  agent_snapshot = "";
  final_summary = none;
  error = none;
}

abbrev projected : Database ℕ
projected = record {
  pricing_catalog = λ p m t. none;
  final_call_billing_records = [];
  idempotency_keys = [];
  call_events = [];
  calls = ("c1", call) ∷ [];
  pipeline_metrics = [];
  usage_records = used "stt" "audio_minute" 60000000 ∷ used "llm" "output_token" 250000000 ∷ [];
  call_usage_events = [];
  call_usage_rollups = [];
  call_billing = [];
  call_usage_manifests = [];
  call_usage_expectations = [];
  outbox_events = [];
  projection_watermarks = [];
}

abbrev store : Store
store = record { projected = projected; final_billing = []; adjustments = [] }

abbrev input : BillingInput
input = record {
  call_id = "c1";
  tenant_id = "org";
  assistant_id = "a";
  pricing_version = "v1";
  consumer_group = "g";
  required_usage_types = "stt_audio_seconds" ∷ [];
  missing_usage_types = [];
  missing_expectations = [];
  manifest_missing = false;
  projection_caught_up = true;
  status = "FINALIZED";
  source_event_id = some "late";
  reason = "late_usage_after_finalization";
}

known : lookup "c1" store.projected.calls ≡ some call
unfolding lookup
known = refl

unbilled : lookup "c1" store.final_billing ≡ none
unfolding lookup
unbilled = refl

finalize_call_billing-IsExact_example :
    let row = final_row input call store in
    let rows = upsert_final "c1" row 7 [] in
    (finalize_call_billing input 7 store ≡ ok (record store { final_billing = rows }, row))
    × (lookup "c1" rows ≡ some (record row { finalized_at = some 7 }))
    × AddsUp row
    × IsExact
        (duration_of (lookup "c1" projected.call_billing) call)
        (usage_cost "c1" projected.usage_records)
        row.total_cost_cents
finalize_call_billing-IsExact_example =
    finalize_call_billing-IsExact input 7 call store known unbilled

-- 5 cents for the minute, 1 for speech-to-text and 3 for the language model.
total : (final_row input call store).total_cost_cents ≡ 9
unfolding final_row component_costs lookup component_of
total = refl

abbrev old_bill : FinalBilling
old_bill = record {
  tenant_id = "org";
  assistant_id = "a";
  started_at = none;
  ended_at = none;
  billable_seconds = 60;
  platform_cost_cents = 5;
  stt_cost_cents = 1;
  llm_cost_cents = 2;
  tts_cost_cents = 0;
  telephony_cost_cents = 4;
  total_cost_cents = 12;
  pricing_version = "v1";
  status = "FINALIZED";
  warnings = [];
  finalized_at = some 3;
}

abbrev billed : Store
billed = record store { final_billing = ("c1", old_bill) ∷ [] }

has_bill : lookup "c1" billed.final_billing ≡ some old_bill
unfolding lookup
has_bill = refl

upsert_final-telephony_example :
    let row = final_row input call billed in
    (stored : FinalBilling) × (lookup "c1" (upsert_final "c1" row 9 billed.final_billing)
      ≡ some stored)
    × (stored.telephony_cost_cents ≡ old_bill.telephony_cost_cents)
    × (stored.finalized_at ≡ or_now old_bill.finalized_at 9)
    × (AddsUp stored ↔ (row.telephony_cost_cents ≡ old_bill.telephony_cost_cents))
upsert_final-telephony_example = upsert_final-telephony input 9 call billed old_bill has_bill

abbrev late : Adjustment
late = adjustment_of input call old_bill billed

abbrev adjusted : Store
adjusted = record billed { adjustments = ("voicemesh:billing-adjustment:c1:late", late) ∷ [] }

adjusts : create_billing_adjustment (λ s. s) input billed ≡ ok (adjusted, late)
unfolding create_billing_adjustment lookup is_adjusted insert
adjusts = refl

create_billing_adjustment_once_example :
    create_billing_adjustment (λ s. s) input adjusted ≡ ok (adjusted, late)
create_billing_adjustment_once_example =
    create_billing_adjustment_once (λ s. s) input "late" billed adjusted late refl adjusts

load_billing_readiness_exact_example :
    (is_ready (load_billing_readiness input projected) ≡ true)
    ↔ ((m : Manifest) × (w : ℕ) × IsComplete input projected m w)
load_billing_readiness_exact_example = load_billing_readiness_exact input projected

abbrev barrier : Manifest
barrier = record {
  tenant_id = "org";
  assistant_id = "a";
  event_id = "e9";
  barrier = record { topic = "usage-events"; partition = 0 };
  barrier_offset = 4;
  expected_turns = [];
  trace_id = none;
  created_at = 0;
}

-- The watermark stands at the barrier, and speech-to-text was recorded.
ready :
    is_ready (
      load_billing_readiness input (record projected {
        call_usage_manifests = ("c1", barrier) ∷ [];
        projection_watermarks =
            ("g", (record { topic = "usage-events"; partition = 0 }, 4) ∷ []) ∷ [];
      }))
    ≡ true
unfolding load_billing_readiness lookup offset_at
ready = refl

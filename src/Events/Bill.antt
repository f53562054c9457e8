-- ===== src/Events/Bill.antt =====
-- apps/api/db/projector.py: the running bill of a call, `_update_call_billing` and
-- `_enqueue_billing_event`. `uuid5` hashes a name in the URL namespace.
use Prim.Native.String.{◌++◌}
use voice_mesh.Prelude.{String, Bool, Option, none, some, List, [], ◌∷◌, if◌then◌else◌, str_eq}
use voice_mesh.Prelude.Dict.{lookup, insert_new, update_row}
use voice_mesh.Prelude.Results.{Result, ok, err, runtime_error}
use voice_mesh.Events.Tables.{Numeric, PipelineEvent, UsageRecord, Billing, Database}

-- What the projector was built with.
pub record Settings (N : Type 0) : Type 0 where
  pub numeric : Numeric N
  pub platform_rate : N
  pub billing_pricing_version : String
  pub uuid5 : String → String

module _ {N : Type 0} where
  unfoldable pub returned_row : Option (Billing N) → Database N → Result (Billing N × Database N)
  returned_row none db = err runtime_error
  returned_row (some b) db = ok (b, db)

module _ {N : Type 0} (s : Settings N) where
  -- `COALESCE((SELECT SUM(cost_usd) FROM usage_records WHERE call_id=$1), 0)`
  unfoldable pub sum_cost : String → List (UsageRecord N) → N
  sum_cost call_id [] = s.numeric.nought
  sum_cost call_id (u ∷ us) =
      let rest = sum_cost call_id us in
      if str_eq u.call_id call_id then s.numeric.plus u.cost_usd rest else rest

  abbrev pub open_billing : Billing N
  open_billing = record {
    call_duration_seconds = s.numeric.nought;
    provider_cost_usd = s.numeric.nought;
    platform_fee_usd = s.numeric.nought;
    total_cost_usd = s.numeric.nought;
    currency = "USD";
    status = "OPEN";
    pricing_version = s.billing_pricing_version;
  }

  -- The UPDATE for a duration, or for an end without one.
  unfoldable pub bill_duration : Option N → Bool → Billing N → Billing N
  bill_duration (some duration) finalized b = record b {
    call_duration_seconds = duration;
    platform_fee_usd = s.numeric.times (s.numeric.per_minute duration) s.platform_rate;
    status = if finalized then "FINALIZED" else b.status;
  }
  bill_duration none finalized b = if finalized then record b { status = "FINALIZED" } else b

  -- The UPDATE that adds the bill up.
  unfoldable pub bill_total : N → Billing N → Billing N
  bill_total cost b = record b {
    provider_cost_usd = cost;
    total_cost_usd = s.numeric.plus b.platform_fee_usd cost;
  }

  -- `_update_call_billing`
  unfoldable pub update_call_billing :
      String → Option N → Bool → Database N → Result (Billing N × Database N)
  unfolding returned_row
  update_call_billing call_id duration finalized db =
      let rows₁ = insert_new call_id open_billing db.call_billing in
      let rows₂ = update_row call_id (bill_duration duration finalized) rows₁ in
      let rows₃ = update_row call_id (bill_total (sum_cost call_id db.usage_records)) rows₂ in
      returned_row (lookup call_id rows₃) (record db { call_billing = rows₃ })

  -- `_enqueue_billing_event`
  unfoldable pub enqueue_billing_event : PipelineEvent N → Billing N → Database N → Database N
  enqueue_billing_event source b db = record db {
    outbox_events =
        insert_new (s.uuid5 ("voicemesh:billing:" ++ source.event_id))
          (record {
            topic = "billing-events";
            key = source.call_id;
            payload = record {
              call_id = source.call_id;
              turn_id = source.turn_id;
              timestamp = source.timestamp;
              sequence_number = source.sequence_number;
              idempotency_key = "billing:" ++ source.event_id;
              source_event_id = source.event_id;
              provider_cost_usd = b.provider_cost_usd;
              platform_fee_usd = b.platform_fee_usd;
              total_cost_usd = b.total_cost_usd;
              currency = b.currency;
              status = b.status;
              trace_id = source.trace_id;
            };
          })
          db.outbox_events;
  }

-- ===== src/Worker/EventWorker.antt =====
-- apps/worker/event_worker.py: `handle_batch`, with the calls of apps/api/temporal_client.py that it
-- makes. Each call to Temporal and to Kafka ends as a World says.
pub mod Asked
mod Tests
use Prim.Native.String.{◌++◌}
use mathlib.Core.List.{◌++◌ as append}
use voice_mesh.Prelude.{
  ℕ, String, Bool, true, false, Option, none, some, List, [], ◌∷◌, snoc, length, if◌then◌else◌,
  truthy,
}
use voice_mesh.Prelude.Dict.{Dict, lookup, insert, get_or}
use voice_mesh.Prelude.Results.{Result, ok, err}
use voice_mesh.Events.Schemas.{EventType, duplicate_event_ignored}
use voice_mesh.Events.Tables.{PipelineEvent, ConsumedEvent, Database}
use voice_mesh.Events.Bill.{Settings}
use voice_mesh.Events.Batch.{ProjectionBatchResult, project_batch}

-- `required_usage_types` is the setting split at its commas.
pub record WorkerSettings : Type 0 where
  pub required_usage_types : List String
  pub billing_usage_wait_seconds : ℕ
  pub billing_usage_settle_seconds : ℕ
  pub billing_missing_usage_policy : String
  pub billing_pricing_version : String

pub record FinalizationStart : Type 0 where
  pub tenant_id : String
  pub assistant_id : String
  pub call_id : String
  pub required_usage_types : List String
  pub wait_timeout_seconds : ℕ
  pub settle_seconds : ℕ
  pub missing_usage_policy : String
  pub pricing_version : String
  pub call_ended : Bool
  pub consumer_group : String
  pub trace_id : Option String

pub record AdjustmentStart : Type 0 where
  pub tenant_id : String
  pub assistant_id : String
  pub call_id : String
  pub source_event_id : String
  pub reason : String
  pub trace_id : Option String

-- The event DUPLICATE_EVENT_IGNORED of stage `idempotency`.
pub record DuplicateEvent : Type 0 where
  pub call_id : String
  pub turn_id : String
  pub sequence_number : ℕ
  pub idempotency_key : String
  pub duplicate_event_id : String
  pub duplicate_idempotency_key : String
  pub trace_id : Option String

pub data Command : Type 0 where
  start_billing_finalization : FinalizationStart → Command
  signal_call_ended : (call_id : String) (trace_id : Option String) → Command
  signal_usage_projection : (call_id : String) (trace_id : Option String) → Command
  start_billing_adjustment : AdjustmentStart → Command
  publish : DuplicateEvent → Command

-- What a call or the handler raises.
pub data Failure : Type 0 where
  workflow_already_started projection_failed : Failure
  other : String → Failure

-- How the call that follows so many others ends.
abbrev pub World : Type 0
World = ℕ → Option Failure

pub record Handled : Type 0 where
  pub asked : List Command
  pub raised : Option Failure

-- What the handler sees of a failure: the client takes a workflow that is there for a start, and
-- `signal_usage_projection` only logs.
unfoldable pub escapes : Command → Failure → Bool
escapes (start_billing_finalization x) workflow_already_started = false
escapes (start_billing_adjustment x) workflow_already_started = false
escapes (signal_usage_projection call_id trace_id) f = false
escapes _ f = true

abbrev pub escaped : Command → Option Failure → Option Failure
escaped c none = none
escaped c (some f) = if escapes c f then some f else none

-- An exception ends the handler.
abbrev pub go_on : List Command → Option Failure → Handled → Handled
go_on asked none rest = rest
go_on asked (some f) rest = record { asked = asked; raised = some f }

-- The awaited calls, one after the other.
unfoldable pub ask : World → List Command → List Command → Handled
unfolding escapes
ask w [] asked = record { asked = asked; raised = none }
ask w (c ∷ cs) asked =
    let now = snoc asked c in
    let rest = ask w cs now in go_on now (escaped c (w (length asked))) rest

abbrev is_duplicate_ignored : EventType → Bool
is_duplicate_ignored duplicate_event_ignored = true
is_duplicate_ignored _ = false

-- The loop over the calls whose usage was projected.
unfoldable pub signal_projections : Dict (Option String) → List String → List Command
signal_projections known [] = []
signal_projections known (id ∷ ids) =
    signal_usage_projection id (get_or none (lookup id known)) ∷ signal_projections known ids

module _ {N : Type 0} where
  abbrev with_trace : PipelineEvent N → Dict (Option String) → Dict (Option String)
  with_trace e d = if truthy e.trace_id then insert e.call_id e.trace_id d else d

  abbrev traces : List (PipelineEvent N) → Dict (Option String) → Dict (Option String)
  traces [] d = d
  traces (e ∷ es) d = traces es (with_trace e d)

  abbrev pub trace_by_call : ProjectionBatchResult N → Dict (Option String)
  trace_by_call r = traces r.inserted_events []

  abbrev pub finalization_of : WorkerSettings → String → PipelineEvent N → FinalizationStart
  finalization_of c group e = record {
    tenant_id = get_or "local-demo-tenant" e.payload.tenant_id;
    assistant_id = get_or "local-demo-assistant" e.payload.assistant_id;
    call_id = e.call_id;
    required_usage_types = c.required_usage_types;
    wait_timeout_seconds = c.billing_usage_wait_seconds;
    settle_seconds = c.billing_usage_settle_seconds;
    missing_usage_policy = c.billing_missing_usage_policy;
    pricing_version = c.billing_pricing_version;
    call_ended = true;
    consumer_group = group;
    trace_id = e.trace_id;
  }

  -- The other loops of the handler, as the calls that they make.
  unfoldable pub finalize_calls : WorkerSettings → String → List (PipelineEvent N) → List Command
  finalize_calls c group [] = []
  finalize_calls c group (e ∷ es) =
      start_billing_finalization (finalization_of c group e)
      ∷ signal_call_ended e.call_id e.trace_id
      ∷ finalize_calls c group es

  abbrev pub adjustment_for : PipelineEvent N → AdjustmentStart
  adjustment_for e = record {
    tenant_id = get_or "local-demo-tenant" e.payload.tenant_id;
    assistant_id = get_or "local-demo-assistant" e.payload.assistant_id;
    call_id = e.call_id;
    source_event_id = e.event_id;
    reason = "late_usage_after_finalization";
    trace_id = e.trace_id;
  }

  unfoldable pub adjust_bills : List (PipelineEvent N) → List Command
  adjust_bills [] = []
  adjust_bills (e ∷ es) = start_billing_adjustment (adjustment_for e) ∷ adjust_bills es

  abbrev pub duplicate_of : PipelineEvent N → DuplicateEvent
  duplicate_of e = record {
    call_id = e.call_id;
    turn_id = e.turn_id;
    sequence_number = e.sequence_number;
    idempotency_key = "duplicate:" ++ e.event_id;
    duplicate_event_id = e.event_id;
    duplicate_idempotency_key = e.idempotency_key;
    trace_id = e.trace_id;
  }

  unfoldable pub publish_duplicates : List (PipelineEvent N) → List Command
  publish_duplicates [] = []
  publish_duplicates (e ∷ es) =
      let rest = publish_duplicates es in
      if is_duplicate_ignored e.event_type then rest else publish (duplicate_of e) ∷ rest

  unfoldable pub commands_of : WorkerSettings → String → ProjectionBatchResult N → List Command
  unfolding finalize_calls signal_projections adjust_bills publish_duplicates
  commands_of c group r =
      let join = append in
      join (finalize_calls c group r.call_ended_events) (
        join (signal_projections (trace_by_call r) r.usage_projection_call_ids)
          (join (adjust_bills r.late_usage_events) (publish_duplicates r.duplicate_events)))

  abbrev pub handle_result :
      World → WorkerSettings → String → Result (ProjectionBatchResult N) → Handled
  handle_result w c group (err e) = record { asked = []; raised = some projection_failed }
  handle_result w c group (ok r) = ask w (commands_of c group r) []

  -- The handler, with the tables that it leaves.
  unfoldable pub handle_batch :
      World
      → WorkerSettings
      → Settings N
      → String
      → List (ConsumedEvent N)
      → Database N
      → Handled × Database N
  unfolding ask commands_of
  handle_batch w c s group items db =
      let (result, after) = project_batch s group items db in
      (handle_result w c group result, after)

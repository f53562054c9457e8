-- ===== src/Events/Projector.antt =====
-- apps/api/db/projector.py: EventProjector, one event and one batch. A batch is one transaction: when
-- it raises, the database stays as it was. The metrics and spans are left out.
use text.Mathlib.Text.{starts_with}
use voice_mesh.Prelude.{
  ℕ, String, Bool, true, false, not, ◌&&◌, Option, none, some, ◌∷◌, if◌then◌else◌, str_eq, has_text,
  or_text, snoc,
}
use voice_mesh.Prelude.Dict.{Dict, lookup, insert, has_key, insert_new, update_row}
use voice_mesh.Prelude.Results.{Result, ok, err, ◌>>=◌}
use voice_mesh.Events.Schemas.{
  EventType, call_started, call_ended, call_failed, pipeline_corked, pipeline_uncorked,
  billing_usage_recorded, value,
}
use voice_mesh.Events.Tables.{PipelineEvent, ConsumedEvent, Call, Billing, Database}
use voice_mesh.Events.Bill.{Settings, update_call_billing}
use voice_mesh.Events.Manifest.{get_or}
use voice_mesh.Events.Usage.{project_usage}

abbrev first_of : {A : Type 0} → Option A → Option A → Option A
first_of none b = b
first_of (some a) b = some a

-- What `_project_call` does with an event, by its type.
pub data CallChange : Type 0 where
  ignore start end fail : CallChange
  cork : Option Bool → CallChange

abbrev pub change_of : EventType → CallChange
change_of billing_usage_recorded = ignore
change_of call_started = start
change_of call_ended = end
change_of call_failed = fail
change_of pipeline_corked = cork (some true)
change_of pipeline_uncorked = cork (some false)
change_of _ = cork none

abbrev restarted : Call → Call → Call
restarted new c = record c {
  status = "CALL_STARTED";
  started_at = first_of c.started_at new.started_at;
  stt_provider = new.stt_provider;
  llm_provider = new.llm_provider;
  tts_provider = new.tts_provider;
  stt_model = new.stt_model;
  llm_model = new.llm_model;
  tts_model = new.tts_model;
  organization_id = first_of c.organization_id new.organization_id;
  agent_id = first_of c.agent_id new.agent_id;
  agent_snapshot = if str_eq c.agent_snapshot "{}" then new.agent_snapshot else c.agent_snapshot;
}

abbrev pub open_call : Option Call → Bool
open_call none = false
open_call (some c) = not (str_eq c.status "CALL_FAILED")

abbrev reason_for : Option Bool → Option String → Option String → Option String
reason_for none reason old = old
reason_for (some true) reason old = some (or_text reason "")
reason_for (some false) reason old = none

abbrev cork_for : Option Bool → Bool → Bool
cork_for none old = old
cork_for (some b) old = b

module _ {N : Type 0} where
  abbrev new_call : PipelineEvent N → Call
  new_call e = record {
    status = "CALL_STARTED";
    started_at = some e.timestamp;
    ended_at = none;
    current_stage = e.stage;
    corked = false;
    cork_reason = none;
    stt_provider = get_or (lookup "stt" e.payload.providers) "unknown";
    llm_provider = get_or (lookup "llm" e.payload.providers) "unknown";
    tts_provider = get_or (lookup "tts" e.payload.providers) "unknown";
    stt_model = lookup "stt" e.payload.models;
    llm_model = lookup "llm" e.payload.models;
    tts_model = lookup "tts" e.payload.models;
    organization_id = e.payload.tenant_id;
    agent_id = e.payload.assistant_id;
    agent_snapshot = e.payload.agent;
    final_summary = none;
    error = none;
  }

  -- The upsert of `call.started`.
  unfoldable pub start_call : PipelineEvent N → Dict Call → Dict Call
  unfolding lookup
  start_call e rows =
      if has_key e.call_id rows
      then update_row e.call_id (restarted (new_call e)) rows
      else insert e.call_id (new_call e) rows

  abbrev completed_call : PipelineEvent N → Call → Call
  completed_call e c = record c {
    status = "CALL_COMPLETED";
    current_stage = e.stage;
    final_summary = e.payload.final_response;
    ended_at = some e.timestamp;
  }

  abbrev failed_call : PipelineEvent N → Call → Call
  failed_call e c = record c {
    status = "CALL_FAILED";
    current_stage = e.stage;
    error = e.payload.error;
    ended_at = some e.timestamp;
  }

  -- The UPDATE of all other events.
  abbrev moved_call : Option Bool → PipelineEvent N → Call → Call
  moved_call corked e c = record c {
    current_stage = e.stage;
    corked = cork_for corked c.corked;
    cork_reason = reason_for corked e.payload.reason c.cork_reason;
    status =
        if str_eq c.status "CALL_STARTED" && not (starts_with (value e.event_type) "call.")
        then "IN_PROGRESS"
        else c.status;
  }

abbrev is_cork : EventType → Bool
is_cork pipeline_corked = true
is_cork _ = false

module _ {N : Type 0} where
  abbrev pub keep_database : Result (Billing N × Database N) → Result (Database N)
  keep_database (ok (b, db)) = ok db
  keep_database (err e) = err e

  unfoldable pub measure : Option ℕ → PipelineEvent N → Database N → Database N
  measure none e db = db
  measure (some latency) e db = record db {
    pipeline_metrics = snoc db.pipeline_metrics (record {
      call_id = e.call_id;
      turn_id = e.turn_id;
      stage = e.stage;
      latency_ms = latency;
      queue_depth = e.payload.queue_depth;
      corked = is_cork e.event_type;
      provider = e.payload.provider;
    });
  }

  -- `_project_metric`
  unfoldable pub project_metric : PipelineEvent N → Database N → Database N
  unfolding measure
  project_metric e db = measure e.payload.latency_ms e db

  -- `_insert_event`
  unfoldable pub insert_event : PipelineEvent N → Database N → Database N
  insert_event e db = record db { call_events = insert_new e.event_id e db.call_events }

  abbrev pub with_key : PipelineEvent N → Database N → Database N
  with_key e db = record db { idempotency_keys = e.idempotency_key ∷ db.idempotency_keys }

  abbrev pub marked : Result (Database N) → Result (Bool × Database N)
  marked (ok db) = ok (true, db)
  marked (err e) = err e

module _ {N : Type 0} (s : Settings N) where
  unfoldable pub change_call : CallChange → PipelineEvent N → Database N → Result (Database N)
  change_call ignore e db = ok db
  change_call start e db = ok (record db { calls = start_call e db.calls })
  change_call end e db =
      let duration = first_of e.payload.duration_seconds (some s.numeric.nought) in
      let ended = record db { calls = update_row e.call_id (completed_call e) db.calls } in
      if open_call (lookup e.call_id db.calls)
      then keep_database (update_call_billing s e.call_id duration true ended)
      else ok db
  change_call fail e db =
      let failed = record db { calls = update_row e.call_id (failed_call e) db.calls } in
      keep_database (update_call_billing s e.call_id none true failed)
  change_call (cork b) e db =
      ok (record db { calls = update_row e.call_id (moved_call b e) db.calls })

  -- `_project_call`
  unfoldable pub project_call : PipelineEvent N → Database N → Result (Database N)
  unfolding change_call
  project_call e db = change_call (change_of e.event_type) e db

  -- What `_project_one` does with a new event.
  unfoldable pub project_new : ConsumedEvent N → Database N → Result (Database N)
  project_new item db = do
    let e = item.event
    db₁ ← project_call e (insert_event e (with_key e db))
    project_usage s e item.source item.offset (project_metric e db₁)

  -- `_project_one`: whether the event was new, and the database after it.
  unfoldable pub project_one : ConsumedEvent N → Database N → Result (Bool × Database N)
  project_one item db =
      let rest = project_new item db in
      if has_text item.event.idempotency_key db.idempotency_keys
      then ok (false, db)
      else marked rest

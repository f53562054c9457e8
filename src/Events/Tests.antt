-- ===== src/Events/Tests.antt =====
-- The theorems on events, for a call whose amounts are natural numbers.
use voice_mesh.Prelude.{bit, ℕ, ◌+◌, ◌≤◌, ◌≡◌, refl, String, some, List, [], ◌∷◌, length, has_text}
use voice_mesh.Prelude.Dict.{lookup, insert, insert_new, update_row}
use voice_mesh.Prelude.Results.{ok}
use voice_mesh.Prelude.Traces.{run}
use voice_mesh.Events.Schemas.{
  call_started, usage_llm_recorded, usage_finalization_barrier, value, is_usage,
}
use voice_mesh.Events.Offsets.{offset_at, raise_offset}
use voice_mesh.Events.Tables.{ConsumedEvent}
use voice_mesh.Events.Bill.{
  sum_cost, update_call_billing, bill_duration, bill_total, enqueue_billing_event, returned_row,
}
use voice_mesh.Events.Usage.{
  project_usage, project_measurements, project_priced, update_usage_rollup, normalized_usage_type,
  add_usage, add_usage_record, priced,
}
use voice_mesh.Events.Projector.{
  project_one, project_new, project_call, project_metric, insert_event, change_call, measure,
  start_call,
}
use voice_mesh.Events.Samples.{settings, event, calls_0, usage_0, empty}
use voice_mesh.Events.Batch.{
  ProjectionBatchResult, project_batch, project_items, note_event, note_usage, save_watermarks,
  upsert_watermark,
}
use voice_mesh.Events.Batch.Replay.{IsSilent, replay-IsSilent}
use voice_mesh.Events.Batch.Once.{count_key, batch_once}
use voice_mesh.Events.Billed.{Billed}
use voice_mesh.Events.Billed.Projected.{after_batch, batches-Billed}
use voice_mesh.Events.Consumer.{ConsumerConfig, Buffer, Round, commit_batch, commit_offsets}
use voice_mesh.Events.Consumer.Delivery.{
  IsInOrder, next, session, rounds-IsInOrder, AllBelow, HasEnd, commit_batch_exact,
}

abbrev items : List (ConsumedEvent ℕ)
items =
    record { event = event "e1" call_started; source = calls_0; offset = 4 }
    ∷ record { event = event "e2" usage_llm_recorded; source = usage_0; offset = 9 }
    ∷ record { event = event "e2" usage_llm_recorded; source = usage_0; offset = 10 }
    ∷ []

abbrev result : ProjectionBatchResult ℕ
result = record {
  inserted_events = event "e1" call_started ∷ event "e2" usage_llm_recorded ∷ [];
  duplicate_events = event "e2" usage_llm_recorded ∷ [];
  usage_projection_call_ids = "c1" ∷ [];
  late_usage_call_ids = [];
  late_usage_events = [];
  call_ended_events = [];
}

projected : (project_batch settings "projector" items empty).0 ≡ ok result
unfolding project_batch project_items project_one project_new project_call project_usage is_usage
    project_metric insert_event project_measurements update_call_billing lookup update_row
    insert_new project_priced update_usage_rollup normalized_usage_type note_event note_usage
    save_watermarks upsert_watermark bill_duration bill_total enqueue_billing_event returned_row
    sum_cost raise_offset change_call measure start_call value add_usage add_usage_record priced
    insert
projected = refl

replay-IsSilent_example :
    IsSilent settings "projector" items (project_batch settings "projector" items empty).1
replay-IsSilent_example = replay-IsSilent settings "projector" items empty result projected

batch_once_example :
    (count_key "key:e2" result.inserted_events + bit (has_text "key:e2" empty.idempotency_keys) ≤ 1)
    × (length result.inserted_events + length result.duplicate_events ≡ length items)
batch_once_example = batch_once settings "key:e2" "projector" items empty result projected

empty-Billed : (d : String) → Billed settings empty d
unfolding lookup sum_cost
empty-Billed d = refl

batches-Billed_example :
    Billed settings (run (after_batch settings "projector") empty (items ∷ items ∷ [])) "c1"
batches-Billed_example =
    batches-Billed settings "projector" empty (items ∷ items ∷ []) "c1" empty-Billed

abbrev consumer : ConsumerConfig
consumer = record { batch_size = 3; batch_timeout_ms = 500 }

abbrev rounds : List (Round ℕ)
rounds =
    record { decoded = items; seen_at = 10; reset_at = 11 }
    ∷ record { decoded = []; seen_at = 600; reset_at = 601 }
    ∷ []

rounds-IsInOrder_example : IsInOrder (run (next consumer) (session 500) rounds)
rounds-IsInOrder_example = rounds-IsInOrder consumer 500 rounds

abbrev barrier_round : Round ℕ
barrier_round = record {
  decoded =
      record { event = event "e3" usage_finalization_barrier; source = usage_0; offset = 11 } ∷ [];
  seen_at = 20;
  reset_at = 21;
}

abbrev waiting : Buffer ℕ
waiting = record { buffered = []; batch_deadline = 500 }

usage_committed : offset_at usage_0 (commit_batch items) ≡ some 11
unfolding offset_at commit_offsets raise_offset
usage_committed = refl

commit_batch_exact_example : AllBelow (commit_batch items) items × HasEnd usage_0 11 items
commit_batch_exact_example = commit_batch_exact items usage_0 11 usage_committed

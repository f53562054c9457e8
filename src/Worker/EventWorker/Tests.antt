-- ===== src/Worker/EventWorker/Tests.antt =====
-- A batch that ends a call, while Temporal is away.
use voice_mesh.Prelude.{ℕ, ◌≡◌, refl, some, none, List, [], ◌∷◌}
use voice_mesh.Prelude.Dict.{lookup, insert, insert_new, update_row}
use voice_mesh.Prelude.Results.{ok}
use voice_mesh.Events.Schemas.{call_ended, value, is_usage}
use voice_mesh.Events.Offsets.{raise_offset}
use voice_mesh.Events.Tables.{ConsumedEvent}
use voice_mesh.Events.Bill.{update_call_billing, bill_duration, bill_total, returned_row, sum_cost}
use voice_mesh.Events.Usage.{project_usage}
use voice_mesh.Events.Projector.{
  project_one, project_new, project_call, project_metric, insert_event, change_call, measure,
}
use voice_mesh.Events.Batch.{
  ProjectionBatchResult, project_batch, project_items, no_result, note_event, note_usage,
  save_watermarks, upsert_watermark,
}
use voice_mesh.Events.Samples.{settings, event, calls_0, empty}
use voice_mesh.Worker.EventWorker.{
  WorkerSettings, other, World, start_billing_finalization, finalization_of, handle_batch,
}
use voice_mesh.Worker.EventWorker.Asked.{AllPublish, redelivery-AllPublish}

abbrev worker : WorkerSettings
worker = record {
  required_usage_types = "stt_audio_seconds" ∷ [];
  billing_usage_wait_seconds = 60;
  billing_usage_settle_seconds = 2;
  billing_missing_usage_policy = "FINALIZED_WITH_WARNINGS";
  billing_pricing_version = "v1";
}

abbrev items : List (ConsumedEvent ℕ)
items = record { event = event "e1" call_ended; source = calls_0; offset = 4 } ∷ []

abbrev result : ProjectionBatchResult ℕ
result = record no_result {
  inserted_events = event "e1" call_ended ∷ [];
  call_ended_events = event "e1" call_ended ∷ [];
}

projected : (project_batch settings "g" items empty).0 ≡ ok result
unfolding project_batch project_items project_one project_new project_call is_usage project_metric
    insert_event update_call_billing lookup update_row insert_new note_event note_usage
    save_watermarks upsert_watermark bill_duration bill_total returned_row sum_cost raise_offset
    change_call measure value insert project_usage
projected = refl

abbrev away : World
away = λ _. some (other "connection refused")

abbrev back : World
back = λ _. none

-- The start of the final bill was asked for once, and failed.
handled : (handle_batch away worker settings "g" items empty).0 ≡ record {
  asked = start_billing_finalization (finalization_of worker "g" (event "e1" call_ended)) ∷ [];
  raised = some (other "connection refused");
}
unfolding handle_batch project_batch project_items project_one project_new project_call lookup
    insert_event project_usage is_usage
handled = refl

redelivery-AllPublish_example :
    let first = handle_batch away worker settings "g" items empty in
    let second = handle_batch back worker settings "g" items first.1 in
    AllPublish second.0.asked × (second.1 ≡ first.1)
redelivery-AllPublish_example =
    redelivery-AllPublish away back worker settings "g" items empty result projected

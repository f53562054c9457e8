-- ===== src/Events/Batch.antt =====
-- apps/api/db/projector.py: EventProjector.project_batch, which is one transaction. The retries of
-- `_retry` on a failing connection, and the metrics, are left out.
pub mod Watermarks
pub mod Replay
pub mod Once
use voice_mesh.Prelude.{
  ℕ, String, Bool, true, false, ◌&&◌, not, Option, none, some, List, [], ◌∷◌, if◌then◌else◌,
  has_text, add_text, snoc,
}
use voice_mesh.Prelude.Dict.{Dict, lookup, insert}
use voice_mesh.Prelude.Results.{Result, ok, err, ◌>>=◌}
use voice_mesh.Events.Schemas.{EventType, call_ended, is_usage}
use voice_mesh.Events.Offsets.{TopicPartition, Offsets, raise_offset, offset_at}
use voice_mesh.Events.Tables.{PipelineEvent, ConsumedEvent, Database}
use voice_mesh.Events.Bill.{Settings}
use voice_mesh.Events.Usage.{is_barrier}
use voice_mesh.Events.Projector.{project_one}

pub record ProjectionBatchResult (N : Type 0) : Type 0 where
  pub inserted_events : List (PipelineEvent N)
  pub duplicate_events : List (PipelineEvent N)
  pub usage_projection_call_ids : List String
  pub late_usage_call_ids : List String
  pub late_usage_events : List (PipelineEvent N)
  pub call_ended_events : List (PipelineEvent N)

-- What the loop over a batch has come to.
pub record Progress (N : Type 0) : Type 0 where
  pub watermarks : Offsets
  pub result : ProjectionBatchResult N
  pub database : Database N

abbrev is_call_end : EventType → Bool
is_call_end call_ended = true
is_call_end _ = false

abbrev pub or_empty : Option Offsets → Offsets
or_empty none = []
or_empty (some d) = d

abbrev pub watermarks_of : String → Dict Offsets → Offsets
watermarks_of group table = or_empty (lookup group table)

-- The upsert of one watermark.
unfoldable pub upsert_watermark : String → TopicPartition → ℕ → Dict Offsets → Dict Offsets
upsert_watermark group p n table = insert group (raise_offset p n (watermarks_of group table)) table

-- The loop over the batch's watermarks.
unfoldable pub save_watermarks : String → Offsets → Dict Offsets → Dict Offsets
save_watermarks group [] table = table
save_watermarks group ((p, n) ∷ w) table =
    save_watermarks group w (upsert_watermark group p n table)

module _ {N : Type 0} where
  abbrev pub no_result : ProjectionBatchResult N
  no_result = record {
    inserted_events = [];
    duplicate_events = [];
    usage_projection_call_ids = [];
    late_usage_call_ids = [];
    late_usage_events = [];
    call_ended_events = [];
  }

  -- What the result notes of a usage event, and of one that is not the barrier of a finished bill.
  unfoldable pub note_usage :
      PipelineEvent N → Database N → ProjectionBatchResult N → ProjectionBatchResult N
  note_usage e db r =
      let ids = add_text e.call_id r.usage_projection_call_ids in
      if not (is_usage e.event_type)
      then r
      else if not (is_barrier e.event_type) && has_text e.call_id db.final_call_billing_records
      then record r {
        usage_projection_call_ids = ids;
        late_usage_call_ids = add_text e.call_id r.late_usage_call_ids;
        late_usage_events = snoc r.late_usage_events e;
      }
      else record r { usage_projection_call_ids = ids }

  unfoldable pub note_event :
      PipelineEvent N → Bool → Database N → ProjectionBatchResult N → ProjectionBatchResult N
  unfolding note_usage
  note_event e false db r = record r { duplicate_events = snoc r.duplicate_events e }
  note_event e true db r = note_usage e db (record r {
    inserted_events = snoc r.inserted_events e;
    call_ended_events =
        if is_call_end e.event_type then snoc r.call_ended_events e else r.call_ended_events;
  })

module _ {N : Type 0} where
  abbrev pub begun : Database N → Progress N
  begun db = record { watermarks = []; result = no_result; database = db }

  abbrev pub saved : String → Progress N → Database N
  saved group p = record p.database {
    projection_watermarks = save_watermarks group p.watermarks p.database.projection_watermarks;
  }

  abbrev pub commit :
      String → Database N → Result (Progress N) → Result (ProjectionBatchResult N) × Database N
  commit group db (ok p) = (ok p.result, saved group p)
  commit group db (err e) = (err e, db)

module _ {N : Type 0} (s : Settings N) where
  -- The loop over the consumed events.
  unfoldable pub project_items : List (ConsumedEvent N) → Progress N → Result (Progress N)
  unfolding note_event
  project_items [] p = ok p
  project_items (item ∷ items) p = do
    (inserted, db) ← project_one s item p.database
    project_items items (record {
      watermarks = raise_offset item.source item.offset p.watermarks;
      result = note_event item.event inserted db p.result;
      database = db;
    })

  unfoldable pub project_batch :
      String → List (ConsumedEvent N) → Database N → Result (ProjectionBatchResult N) × Database N
  project_batch group items db = commit group db (project_items items (begun db))

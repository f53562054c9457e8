-- ===== src/Events/Consumer.antt =====
-- apps/api/events/kafka_consumer.py: KafkaEventConsumer, the rounds of its loop and its commits. Kafka
-- is outside: a round's decoded records, in their order, and the readings of the clock, in
-- milliseconds, are arguments. The decoding, the lag and the spans are left out.
pub mod Delivery
use voice_mesh.Prelude.{
  ℕ, suc, ◌+◌, ◌-◌, Bool, true, false, not, ◌||◌, Option, none, some, List, [], ◌∷◌, ◌++◌, max, leb,
  if◌then◌else◌, length,
}
use voice_mesh.Events.Schemas.{EventType, usage_finalization_barrier}
use voice_mesh.Events.Offsets.{Offsets, raise_offset}
use voice_mesh.Events.Tables.{ConsumedEvent}
use voice_mesh.Events.Usage.{is_barrier}

pub record ConsumerConfig : Type 0 where
  pub batch_size : ℕ
  pub batch_timeout_ms : ℕ

-- The local variables of `run`.
pub record Buffer (N : Type 0) : Type 0 where
  pub buffered : List (ConsumedEvent N)
  pub batch_deadline : ℕ

-- What a round gets: the records, the time at which `timed_out` is computed and that of the next line
-- that sets the deadline.
pub record Round (N : Type 0) : Type 0 where
  pub decoded : List (ConsumedEvent N)
  pub seen_at : ℕ
  pub reset_at : ℕ

module _ {N : Type 0} where
  -- `max_records` of `getmany`
  abbrev pub max_records : ConsumerConfig → Buffer N → ℕ
  max_records c b = max 1 (c.batch_size - length b.buffered)

  abbrev pub has_barrier : List (ConsumedEvent N) → Bool
  has_barrier [] = false
  has_barrier (i ∷ is) = is_barrier i.event.event_type || has_barrier is

  abbrev pub is_empty : List (ConsumedEvent N) → Bool
  is_empty [] = true
  is_empty (_ ∷ _) = false

  -- A round of the loop up to the handler: the variables after it, and the batch if there is one.
  unfoldable pub take_round :
      ConsumerConfig → Round N → Buffer N → Buffer N × Option (List (ConsumedEvent N))
  take_round c r b =
      let all = b.buffered ++ r.decoded in
      let timed_out = leb b.batch_deadline r.seen_at in
      let batch_full = leb c.batch_size (length all) in
      let next_deadline = r.reset_at + c.batch_timeout_ms in
      if is_empty all
      then (
        record {
          buffered = all;
          batch_deadline = if timed_out then next_deadline else b.batch_deadline;
        },
        none,
      )
      else if not (has_barrier r.decoded || timed_out || batch_full)
      then (record { buffered = all; batch_deadline = b.batch_deadline }, none)
      else (record { buffered = []; batch_deadline = next_deadline }, some all)

  -- The offsets that `_commit_batch` commits.
  unfoldable pub commit_offsets : List (ConsumedEvent N) → Offsets → Offsets
  commit_offsets [] offsets = offsets
  commit_offsets (i ∷ is) offsets = commit_offsets is (raise_offset i.source (suc i.offset) offsets)

  abbrev pub commit_batch : List (ConsumedEvent N) → Offsets
  commit_batch batch = commit_offsets batch []

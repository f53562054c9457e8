-- ===== src/Analytics/Writer.antt =====
-- apps/api/analytics/clickhouse/writer.py: ClickHouseBatchWriter, and the retries of
-- apps/api/analytics/clickhouse/consumer.py. ClickHouse is outside: `accepts` says whether the n-th
-- insert goes through. Times are in milliseconds; the jitter of a delay and the metrics are left out.
pub mod Delivery
pub mod Retries
mod Tests
use voice_mesh.Prelude.{
  ℕ, zero, suc, ◌+◌, ◌*◌, ◌-◌, Bool, true, false, Option, none, some, List, [], ◌∷◌, snoc, leb, ltb,
  if◌then◌else◌, length,
}

pub record WriterConfig : Type 0 where
  pub max_rows : ℕ
  pub flush_ms : ℕ

-- The writer's buffer, with the inserts so far: how many were tried, and the batches that went in.
pub record Writer (R : Type 0) : Type 0 where
  pub rows : List R
  pub first_buffered_at : Option ℕ
  pub tried : ℕ
  pub inserted : List (List R)

pub data RetryOutcome : Type 0 where
  returned raised out_of_fuel : RetryOutcome

abbrev pub buffered_since : {R : Type 0} → Writer R → ℕ → Option ℕ
buffered_since w now = elim w.rows [ [] ↦ some now | _ ∷ _ ↦ w.first_buffered_at ]

module _ {R : Type 0} (accepts : ℕ → List R → Bool) where
  -- `insert_rows`: whether it returned, rather than raised.
  unfoldable pub insert_rows : List R → Writer R → Bool × Writer R
  insert_rows rows w =
      let w' = record w { tried = suc w.tried } in
      if accepts w.tried rows
      then (true, record w' { inserted = snoc w.inserted rows })
      else (false, w')

  unfoldable pub flush_rows : List R → Writer R → Bool × Writer R
  flush_rows [] w = (true, w)
  flush_rows (x ∷ xs) w = insert_rows (x ∷ xs) w

  -- `flush`: the buffer is emptied before the insert.
  unfoldable pub flush : Writer R → Bool × Writer R
  unfolding flush_rows
  flush w = flush_rows w.rows (record w { rows = []; first_buffered_at = none })

  -- `add`, at the time `now`.
  unfoldable pub add : WriterConfig → ℕ → R → Writer R → Bool × Writer R
  add c now row w =
      let w' = record w { rows = snoc w.rows row; first_buffered_at = buffered_since w now } in
      if leb c.max_rows (length w'.rows) then flush w' else (true, w')

  abbrev is_due : WriterConfig → ℕ → Writer R → Bool
  is_due c now w = elim w.rows [
    | [] ↦ false
    | _ ∷ _ ↦ elim w.first_buffered_at [ none ↦ false | some t ↦ leb (t + c.flush_ms) now ]
  ]

  unfoldable pub flush_if_due : WriterConfig → ℕ → Writer R → Bool × Writer R
  flush_if_due c now w = if is_due c now w then flush w else (true, w)

  -- The body of the `try` in `_insert_with_retry`: all rows are added, then flushed.
  unfoldable pub add_all : WriterConfig → ℕ → List R → Writer R → Bool × Writer R
  add_all c now [] w = flush w
  add_all c now (row ∷ rest) w =
      let (went, w') = add c now row w in
      let later = add_all c now rest w' in if went then later else (false, w')

  -- `_insert_with_retry` from a delay on, for at most `fuel` passes.
  unfoldable pub insert_with_retry :
      WriterConfig → ℕ → ℕ → ℕ → ℕ → List R → Writer R → RetryOutcome × Writer R
  insert_with_retry c now max_retry zero delay rows w = (out_of_fuel, w)
  insert_with_retry c now max_retry (suc fuel) delay rows w =
      let (ok, w') = add_all c now rows w in
      let later = insert_with_retry c now max_retry fuel (delay * 2) rows w' in
      if ok then (returned, w') else if ltb max_retry delay then (raised, w') else later

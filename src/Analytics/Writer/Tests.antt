-- ===== src/Analytics/Writer/Tests.antt =====
-- The writer's theorems, for a ClickHouse that refuses the second insert.
use voice_mesh.Prelude.{ℕ, ◌≡◌, ◌≢◌, refl, Bool, not, none, List, [], ◌∷◌, ◌++◌, arith, ◌==◌}
use voice_mesh.Analytics.Writer.{
  WriterConfig, Writer, returned, out_of_fuel, insert_with_retry, add_all, add, flush, flush_rows,
  insert_rows,
}
use voice_mesh.Analytics.Writer.Delivery.{all_rows, insert_with_retry-delivers}
use voice_mesh.Analytics.Writer.Retries.{insert_with_retry_ends}

abbrev config : WriterConfig
config = record { max_rows = 2; flush_ms = 1000 }

abbrev new : Writer ℕ
new = record { rows = []; first_buffered_at = none; tried = 0; inserted = [] }

abbrev flaky : ℕ → List ℕ → Bool
flaky n rows = not (n == 1)

abbrev rows : List ℕ
rows = 10 ∷ 20 ∷ 30 ∷ []

second_pass : (insert_with_retry flaky config 5 4000 3 1000 rows new).0 ≡ returned
unfolding insert_with_retry add_all add flush flush_rows insert_rows
second_pass = refl

-- The rows of the first pass's first batch are inserted twice.
repeats :
    (insert_with_retry flaky config 5 4000 3 1000 rows new).1.inserted
    ≡ (10 ∷ 20 ∷ []) ∷ (10 ∷ 20 ∷ []) ∷ (30 ∷ []) ∷ []
unfolding insert_with_retry add_all add flush flush_rows insert_rows
repeats = refl

insert_with_retry-delivers_example :
    let v = (insert_with_retry flaky config 5 4000 3 1000 rows new).1 in
    ((before : List ℕ) × (all_rows v.inserted ≡ before ++ rows)) × (v.rows ≡ [])
insert_with_retry-delivers_example =
    insert_with_retry-delivers flaky config 5 4000 3 1000 rows new second_pass

insert_with_retry_ends_example :
    (insert_with_retry flaky config 5 4000 3002 1000 rows new).0 ≢ out_of_fuel
insert_with_retry_ends_example =
    insert_with_retry_ends flaky config 5 4000 3002 1000 rows new (omega arith) (omega arith)

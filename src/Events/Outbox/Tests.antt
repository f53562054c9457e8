-- ===== src/Events/Outbox/Tests.antt =====
-- Two rows of one table.
use voice_mesh.Prelude.{ℕ, ◌-◌, ◌*◌, ◌≡◌, refl, String, some, List, [], ◌∷◌}
use voice_mesh.Prelude.Dict.{lookup, insert_new, insert, update_row}
use voice_mesh.Prelude.Distinct.{IsDistinct}
use voice_mesh.Prelude.Traces.{run}
use voice_mesh.Events.Outbox.{
  OutboxRow, Outbox, Outcome, done, World, new_row, set_published, Happening, inserted, polled,
  happen,
}
use voice_mesh.Events.Outbox.Order.{waiting}
use voice_mesh.Events.Outbox.Delivery.{IsBacked, run-IsBacked}
use voice_mesh.Events.Outbox.Drained.{accepting, polls, batches_drain}

abbrev text : String → Outcome String
text s = done s

abbrev row : String → ℕ → OutboxRow
row payload now = new_row text "billing-events" "c1" payload now

abbrev outbox : Outbox String
outbox = record { rows = ("b", row "late" 2) ∷ ("a", row "early" 1) ∷ []; sent = [] }

distinct : IsDistinct outbox.rows
unfolding lookup
distinct = (refl, (refl, tt))

batches_drain_example :
    waiting (run (happen text) outbox (polls (λ s. s) 2 1)).rows ≡ waiting outbox.rows - 2 * 1
batches_drain_example = batches_drain (λ s. s) 2 1 outbox distinct

-- The broker refuses the first batch.
abbrev refusing : World
refusing = record accepting { publish_raw = λ _. some "KafkaTimeoutError" }

abbrev history : List (Happening text)
history =
    inserted "a" "billing-events" "c1" "early" 1 ∷ polled 100 refusing ∷ polled 100 accepting ∷ []

abbrev published_row : OutboxRow
published_row = record (set_published (row "early" 1)) { attempts = 2 }

abbrev final : Outbox String
final = run (happen text) (record { rows = []; sent = [] }) history

final_row_a : lookup "a" final.rows ≡ some published_row
unfolding lookup happen insert_new insert update_row
final_row_a = refl

run-IsBacked_example : IsBacked text "a" published_row final.sent
run-IsBacked_example = run-IsBacked text "a" history published_row final_row_a refl

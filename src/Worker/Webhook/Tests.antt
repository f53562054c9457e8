-- ===== src/Worker/Webhook/Tests.antt =====
-- The delivery workflow's theorem, for a webhook that answers the second delivery.
use voice_mesh.Prelude.{ℕ, ◌≤◌, arith, ◌≡◌, refl, true, none, [], ◌==◌}
use voice_mesh.Worker.Flow.{
  Answer, reply, World, start, returned, ◌>>=◌, pure, gets, modify, execute, deliver, sleep,
}
use voice_mesh.Worker.Webhook.{
  Activity, deliver_webhook, delivered, Reply, Returned, init, run_workflow, deliver_from, succeed,
  give_up, back_off,
}
use voice_mesh.Worker.Webhook.Delivered.{Reports, delivery_tries, run_workflow-Reports}

abbrev answer_of : ℕ → Activity → Answer Reply
answer_of n (deliver_webhook k) = reply (record { success = k == 2; error = none })
answer_of n _ = reply (record { success = true; error = none })

abbrev second_time : World ⊥ Activity Reply
second_time = record { script = []; answer = answer_of }

abbrev outcome : Returned
outcome = record { state = delivered; attempts = 2 }

second_returns : (run_workflow second_time 5 2 (start second_time init)).0 ≡ returned outcome
unfolding run_workflow deliver_from succeed give_up back_off init start execute deliver sleep ◌>>=◌
    pure gets modify
second_returns = refl

-- Temporal tries each activity twice.
abbrev tries : ℕ → ℕ
tries k = 2

tries_at_least : (k : ℕ) → 1 ≤ tries k
tries_at_least k = omega arith

run_workflow-Reports_example :
    let r = (run_workflow second_time 5 2 (start second_time init)).1 in
    Reports 5 outcome r × (outcome.attempts ≤ delivery_tries tries r.calls)
run_workflow-Reports_example =
    run_workflow-Reports second_time 5 2 outcome tries tries_at_least second_returns

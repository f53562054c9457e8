-- ===== src/Worker/Action/Tests.antt =====
-- The durable action's theorems, for an action that is asked for its status twice.
use voice_mesh.Prelude.{
  bit, ℕ, zero, suc, ◌*◌, ◌≤◌, String, ◌≡◌, ◌≢◌, refl, true, false, none, some, [], ◌∷◌, arith,
}
use voice_mesh.Prelude.Lower.{same_codes, lower}
use voice_mesh.Worker.Flow.{
  Answer, reply, returned, out_of_fuel, World, start, execute, deliver, ◌>>=◌, wait_condition,
}
use voice_mesh.Worker.Action.{
  maximum_attempts, ToolConfig, Payload, DurableAction, Signal, cancel_signal, Activity, completed,
  get_external_action_status, init, run_workflow, transition, attempt, poll, judge, take_status,
  wait_for_news, verdict, cancel_after_create,
}
use voice_mesh.Worker.Action.Terminal.{is_terminal, last_told, run_workflow-HasEnded}
use voice_mesh.Worker.Action.Cancelling.{run_workflow-cancels}
use voice_mesh.Worker.Action.Stable.{cancels, cancel_tries}
use voice_mesh.Worker.Action.Total.{run_workflow-Ends}

abbrev config : ToolConfig
config = record {
  has_cancel = true;
  has_status = true;
  terminal_states = "completed" ∷ [];
  poll_interval_seconds = 10;
  max_runtime_seconds = 30;
}

abbrev told : String → Payload
told s = record {
  is_present = true;
  external_request_id = some "x1";
  status = some s;
  message = none;
}

abbrev answer_of : ℕ → Activity → Answer Payload
answer_of n (get_external_action_status i) = reply (told "Completed")
answer_of n _ = reply (told "pending")

abbrev prompt : World Signal Activity Payload
prompt = record { script = []; answer = answer_of }

run_workflow-Ends_example : (run_workflow prompt 31 config (start prompt init)).0 ≢ out_of_fuel
run_workflow-Ends_example = run_workflow-Ends prompt config 31 (omega arith) (omega arith)

abbrev result : DurableAction
result = record {
  state = completed;
  external_request_id = some "x1";
  message = none;
  is_cancel_requested = false;
  cancel_reason = none;
  last_error = none;
  external_status = none;
}

prompt_returns : (run_workflow prompt 2 config (start prompt init)).0 ≡ returned result
unfolding run_workflow attempt transition poll judge take_status wait_for_news verdict
    cancel_after_create init start execute deliver wait_condition ◌>>=◌ same_codes lower
prompt_returns = refl

run_workflow-HasEnded_example :
    (is_terminal result.state ≡ true)
    × (last_told (run_workflow prompt 2 config (start prompt init)).1.calls ≡ some result.state)
run_workflow-HasEnded_example = run_workflow-HasEnded prompt config 2 result prompt_returns

-- A cancel request comes while the action is created.
abbrev hasty : World Signal Activity Payload
hasty = record { script = [] ∷ [] ∷ (cancel_signal none ∷ []) ∷ []; answer = answer_of }

-- The activities after the first two take three attempts each.
abbrev tries : ℕ → ℕ
tries zero = 1
tries (suc zero) = 1
tries (suc (suc k)) = 3

tries_at_most : (k : ℕ) → tries k ≤ maximum_attempts
tries_at_most zero = omega arith
tries_at_most (suc zero) = omega arith
tries_at_most (suc (suc k)) = omega arith

run_workflow-cancels_example :
    let r = (run_workflow hasty 31 config (start hasty init)).1 in
    (cancels r.calls ≤ bit r.fields.is_cancel_requested)
    × (cancel_tries tries r.calls ≤ maximum_attempts * bit r.fields.is_cancel_requested)
run_workflow-cancels_example = run_workflow-cancels hasty config 31 tries tries_at_most

-- ===== src/Worker/Call/Tests.antt =====
-- The call workflow's theorems, for calls without trouble and for one with a late event.
use voice_mesh.Prelude.{String, ◌≡◌, ◌≢◌, refl, true, false, Option, none, some, [], ◌∷◌, arith}
use voice_mesh.Worker.Flow.{
  reply, returned, out_of_fuel, World, start, execute, deliver, ◌>>=◌, wait_condition,
}
use voice_mesh.Worker.Call.{
  done, in_progress, started, pipeline, completed, WorkflowEvent, Activity, Reply, Returned,
  CallRun, init, run_workflow, serve, drain, drain_events, apply, persist,
}
use voice_mesh.Worker.Call.Total.{run_workflow_ends}
use voice_mesh.Worker.Call.Persisted.{last_state, run_workflow_saved}
use voice_mesh.Worker.Call.LastEvent.{Settles, drain-last_event}

abbrev event_type : String → Option String
event_type s = some s

abbrev answered : Reply
answered = record { fallback_provider = none; summary = "ok" }

abbrev begun : WorkflowEvent String
begun = record { kind = started; payload = "" }

abbrev corked : WorkflowEvent String
corked = record { kind = pipeline; payload = "pipeline.corked" }

abbrev ended : WorkflowEvent String
ended = record { kind = completed; payload = "" }

-- All activities succeed; the call starts during the first await and ends during the third.
abbrev calm : World (WorkflowEvent String) (Activity String) Reply
calm = record { script = (begun ∷ []) ∷ [] ∷ (ended ∷ []) ∷ []; answer = λ n a. reply answered }

run_workflow_ends_example :
    (run_workflow event_type calm 3 2 (start calm (init "c1"))).0 ≢ out_of_fuel
run_workflow_ends_example = run_workflow_ends event_type calm "c1" 3 2 (omega arith) (omega arith)

abbrev outcome : Returned
outcome = record { call_id = "c1"; state = done; summary = "ok" }

calm_returns : (run_workflow event_type calm 3 2 (start calm (init "c1"))).0 ≡ returned outcome
unfolding run_workflow serve drain drain_events apply persist init start execute deliver
    wait_condition ◌>>=◌
calm_returns = refl

run_workflow_saved_example :
    let r = (run_workflow event_type calm 3 2 (start calm (init "c1"))).1 in
    (r.fields.is_done ≡ true)
    × (outcome.state ≡ r.fields.state)
    × (last_state r.calls ≡ some outcome.state)
run_workflow_saved_example = run_workflow_saved event_type calm "c1" 3 2 outcome calm_returns

-- A cork is reported behind the end of the call.
abbrev late : CallRun String
late = record {
  tick = 0;
  coming = [];
  fields = record {
    state = in_progress;
    call_id = "c1";
    events = ended ∷ corked ∷ [];
    summary = "";
    is_done = false;
  };
  calls = [];
}

late_returns : (drain event_type calm 2 late).0 ≡ returned tt
unfolding drain drain_events apply persist execute deliver ◌>>=◌
late_returns = refl

drain-last_event_example :
    Settles event_type pipeline "pipeline.corked" (drain event_type calm 2 late).1.fields.state
drain-last_event_example =
    drain-last_event event_type calm 2 (ended ∷ []) corked late tt refl refl late_returns

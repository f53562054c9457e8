-- ===== src/Worker/Call/Persisted.antt =====
-- What the store was told of the state when the workflow returns.
use voice_mesh.Prelude.{
  ℕ, zero, suc, ◌≡◌, refl, String, true, Option, none, some, List, [], ◌∷◌, arith,
}
use voice_mesh.Prelude.Traces.{run}
use voice_mesh.Worker.Flow.{
  timeout_error, activity_error, Outcome, returned, raised, out_of_fuel, World, ◌>>=◌, modify,
  execute, deliver, wait_condition, start, head_signals,
}
use voice_mesh.Worker.Flow.Rules.{Ensures, bind-Ensures, continue_post, if_post}
use voice_mesh.Worker.Call.{
  CallState, Kind, started, pipeline, provider_failed, completed, failed, WorkflowEvent,
  CallWorkflow, Activity, persist_call_state, Reply, Returned, signal, CallRun, persist, apply,
  drain_events, drain, serve, recover, on_timeout, try_serve, run_workflow, awake, init,
}

module _ {P : Type 0} where
  -- The state that the latest `persist_call_state` carried; `calls` has the latest call first.
  abbrev pub last_state : List (Activity P) → Option CallState
  last_state [] = none
  last_state (persist_call_state _ s ∷ cs) = some s
  last_state (_ ∷ cs) = last_state cs

  -- The latest state that was sent to the store is the workflow's.
  abbrev pub IsSaved : CallRun P → Type 0
  IsSaved r = last_state r.calls ≡ some r.fields.state

  fields-run :
      (s : CallWorkflow P) (es : List (WorkflowEvent P))
      → ((run signal s es).state ≡ s.state) × ((run signal s es).is_done ≡ s.is_done)
  fields-run s [] = (refl, refl)
  fields-run s (e ∷ es) = fields-run (signal s e) es

module _ {P : Type 0} (w : World (WorkflowEvent P) (Activity P) Reply) where
  -- `_persist` sends the state and leaves it, whether it fails or not.
  pub persist_saves :
      (r : CallRun P)
      → IsSaved (persist w r).1
        × ((persist w r).1.fields.state ≡ r.fields.state)
        × ((persist w r).1.fields.is_done ≡ r.fields.is_done)
  unfolding persist execute deliver ◌>>=◌
  persist_saves r = ground (arith, fields-run r.fields (head_signals r.coming))

  pub modify-persist :
      (Q : CallRun P → Type 0) (f : CallWorkflow P → CallWorkflow P)
      → ((r : CallRun P) (s : CallWorkflow P)
          → IsSaved r
          → r.fields.state ≡ (f s).state
          → r.fields.is_done ≡ (f s).is_done
          → Q r)
      → Ensures Q (modify f >>= λ _. persist w)
  unfolding ◌>>=◌
  modify-persist Q f h = record {
    at = λ r a q.
        let p = persist_saves (record r { fields = f r.fields }) in
        h (persist w (record r { fields = f r.fields })).1 r.fields p.0 p.1 p.2;
  }

  apply_saves :
      (event_type : P → Option String) (k : Kind) (p : P) → Ensures IsSaved (apply w event_type k p)
  unfolding apply
  apply_saves t started p = search (bind-Ensures, modify-persist) depth 14
  apply_saves t pipeline p = search (bind-Ensures, modify-persist) depth 14
  apply_saves t provider_failed p = search (bind-Ensures, modify-persist) depth 14
  apply_saves t completed p = search (bind-Ensures, modify-persist) depth 14
  apply_saves t failed p = search (bind-Ensures, modify-persist) depth 14

  recover_saves : Ensures (λ r. IsSaved r × (r.fields.is_done ≡ true)) (recover w)
  unfolding recover
  recover_saves = search (bind-Ensures, modify-persist) depth 20

module _ {P : Type 0} (event_type : P → Option String)
    (w : World (WorkflowEvent P) (Activity P) Reply) where
  drain_saves :
      (fuel : ℕ) (es : List (WorkflowEvent P)) (r : CallRun P) (a : Unit {0})
      → IsSaved r
      → (drain_events event_type w fuel es r).0 ≡ returned a
      → IsSaved (drain_events event_type w fuel es r).1
  unfolding drain_events ◌>>=◌
  drain_saves fuel [] r a h q = h
  drain_saves zero (e ∷ es) r a h q = cc
  drain_saves (suc fuel) (e ∷ es) r a h q =
      let popped : CallRun P = record r { fields = record r.fields { events = es } } in
      let (o, r') = apply w event_type e.kind e.payload popped in
      continue_post IsSaved o _ r' a
        (λ b p k.
          drain_saves fuel r'.fields.events r' a
            ((apply_saves w event_type e.kind e.payload).at popped b p) k)
        q

  wait_saves : (r : CallRun P) → IsSaved r → IsSaved (wait_condition signal awake r).1
  unfolding wait_condition deliver
  wait_saves r h = ground (arith, fields-run r.fields (head_signals r.coming))

  -- Saved, and marked as done.
  abbrev IsFinished : CallRun P → Type 0
  IsFinished r = IsSaved r × (r.fields.is_done ≡ true)

  serve_finishes :
      (rounds fuel : ℕ) (r : CallRun P) (a : Unit {0})
      → IsSaved r
      → (serve event_type w rounds fuel r).0 ≡ returned a
      → IsFinished (serve event_type w rounds fuel r).1
  unfolding serve ◌>>=◌ drain
  serve_finishes zero fuel r a h q = cc
  serve_finishes (suc rounds) fuel r a h q =
      let (o, r') = wait_condition signal awake r in
      let (o', r'') = drain event_type w fuel r' in
      if_post IsFinished r.fields.is_done (returned tt, r) _ a (λ d _. (h, d))
        (λ d. continue_post IsFinished o _ r' a λ b p. continue_post IsFinished o' _ r'' a λ c k.
          serve_finishes rounds fuel r'' a
            (drain_saves fuel r'.fields.events r' c (wait_saves r h) k))
        q

  caught_finishes :
      (o : Outcome (Unit {0})) (r : CallRun P) (a : Unit {0})
      → (o ≡ returned a → IsFinished r)
      → (on_timeout w o r).0 ≡ returned a
      → IsFinished (on_timeout w o r).1
  caught_finishes (returned b) r a h q = h refl
  caught_finishes (raised timeout_error) r a h q = (recover_saves w).at r a q
  caught_finishes (raised (activity_error m)) r a h q = cc
  caught_finishes out_of_fuel r a h q = cc

  -- The run has the state that the workflow returned, and told it to the store.
  abbrev Delivers : Returned → CallRun P → Type 0
  Delivers v r =
      (r.fields.is_done ≡ true) × (v.state ≡ r.fields.state) × (last_state r.calls ≡ some v.state)

  reported :
      (r : CallRun P) (v : Returned)
      → IsFinished r
      → returned (record {
        call_id = r.fields.call_id;
        state = r.fields.state;
        summary = r.fields.summary;
      })
        ≡ returned v
      → Delivers v r
  reported r v h e = ground arith

  -- When the workflow returns, it is marked as done, and the state that it returns is its own and the
  -- one that was sent to the store last.
  pub run_workflow_saved :
      (call_id : String) (rounds fuel : ℕ) (v : Returned)
      → (run_workflow event_type w rounds fuel (start w (init call_id))).0 ≡ returned v
      → let r = (run_workflow event_type w rounds fuel (start w (init call_id))).1 in
        (r.fields.is_done ≡ true) × (v.state ≡ r.fields.state) × (last_state r.calls ≡ some v.state)
  unfolding run_workflow ◌>>=◌ start init
  run_workflow_saved call_id rounds fuel v q =
      let r₀ = start w (init call_id) in
      let (o, r') = persist w r₀ in
      let (o', r'') = try_serve event_type w rounds fuel r' in
      let (o'', s) = serve event_type w rounds fuel r' in
      continue_post (Delivers v) o _ r' v
        (λ b p. continue_post (Delivers v) o' _ r'' v λ c p' k.
          reported r'' v
            (caught_finishes o'' s c (λ e. serve_finishes rounds fuel r' c (persist_saves w r₀).0 e)
              p')
            k)
        q

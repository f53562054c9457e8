-- ===== src/Worker/Call/Total.antt =====
-- The workflow ends: each round of its loops uses up a signal, and no signal is made by the code.
use voice_mesh.Prelude.{
  ℕ, zero, suc, ◌≤◌, ◌<◌, ◌≡◌, ◌≢◌, refl, ◌∙◌, ◌-◌, ap, ◌-◌, String, true, false, Option, List, [],
  ◌∷◌, arith, length,
}
use voice_mesh.Prelude.Traces.{run}
use voice_mesh.Worker.Flow.{
  timeout_error, activity_error, Outcome, returned, raised, out_of_fuel, World, ◌>>=◌, continue,
  gets, deliver, wait_condition, start, head_signals,
}
use voice_mesh.Worker.Flow.Rules.{if_ends}
use voice_mesh.Worker.Call.{
  WorkflowEvent, CallWorkflow, Activity, Reply, Returned, signal, Action, CallRun, persist, apply,
  drain_events, drain, serve, on_timeout, try_serve, run_workflow, awake, init,
}
use voice_mesh.Worker.Call.Steady.{
  count_coming, pending_work, pending-deliver, persist-IsSteady, recover-IsSteady, apply-IsSteady,
}

module _ {P : Type 0} where
  -- A result that is one, with at most `n` events left.
  record Leaves (n : ℕ) (res : Outcome (Unit {0}) × CallRun P) : Type 0 where
    ended : res.0 ≢ out_of_fuel
    left : pending_work res.1 ≤ n

module _ {P : Type 0} (event_type : P → Option String)
    (w : World (WorkflowEvent P) (Activity P) Reply) where
  drain_rest :
      (fuel n : ℕ) (o : Outcome (Unit {0})) (r : CallRun P)
      → ((es : List (WorkflowEvent P)) (r' : CallRun P)
          → r'.fields.events ≡ es
          → pending_work r' ≤ fuel
          → Leaves (pending_work r') (drain_events event_type w fuel es r'))
      → o ≢ out_of_fuel
      → pending_work r ≤ n
      → n ≤ fuel
      → Leaves n (continue o (λ _. do s ← gets (λ s. s); drain_events event_type w fuel s.events) r)
  unfolding ◌>>=◌
  drain_rest fuel n (returned a) r ih ne h k =
      let l = ih r.fields.events r refl (omega arith) in
      record { ended = l.ended; left = omega (arith, l.left, h) }
  drain_rest fuel n (raised e) r ih ne h k = record { ended = λ e. cc; left = h }
  drain_rest fuel n out_of_fuel r ih ne h k = absurd (ne refl)

  drain_step :
      (fuel : ℕ) (e : WorkflowEvent P) (es : List (WorkflowEvent P)) (r : CallRun P)
      → ((es : List (WorkflowEvent P)) (r' : CallRun P)
          → r'.fields.events ≡ es
          → pending_work r' ≤ fuel
          → Leaves (pending_work r') (drain_events event_type w fuel es r'))
      → r.fields.events ≡ e ∷ es
      → pending_work r ≤ suc fuel
      → Leaves (pending_work r - 1) (drain_events event_type w (suc fuel) (e ∷ es) r)
  unfolding drain_events ◌>>=◌
  drain_step fuel e es r ih q h =
      let popped : CallRun P = record r { fields = record r.fields { events = es } } in
      let a = apply-IsSteady w event_type e.kind e.payload in
      let n : length r.fields.events ≡ suc (length es) = ap length q in
      drain_rest fuel (pending_work r - 1) (apply w event_type e.kind e.payload popped).0
        (apply w event_type e.kind e.payload popped).1 ih (a.ends popped)
        (omega (arith, a.keeps popped, n)) (omega arith)

  drain-Leaves :
      (fuel : ℕ) (es : List (WorkflowEvent P)) (r : CallRun P)
      → r.fields.events ≡ es
      → pending_work r ≤ fuel
      → Leaves (pending_work r) (drain_events event_type w fuel es r)
  unfolding drain_events
  drain-Leaves fuel [] r q h = record { ended = λ e. cc; left = omega arith }
  drain-Leaves zero (e ∷ es) r q h = absurd (omega (arith, h, ap length q))
  drain-Leaves (suc fuel) (e ∷ es) r q h =
      let l = drain_step fuel e es r (drain-Leaves fuel) q h in
      record { ended = l.ended; left = omega (arith, l.left) }

  fields-signals :
      (s : CallWorkflow P) (es : List (WorkflowEvent P)) → (run signal s es).is_done ≡ s.is_done
  fields-signals s [] = refl
  fields-signals s (e ∷ es) = fields-signals (signal s e) es

  serve_drained :
      (rounds fuel n : ℕ) (o : Outcome (Unit {0})) (r : CallRun P)
      → ((r' : CallRun P)
          → pending_work r' ≤ fuel
          → pending_work r' < rounds
          → (serve event_type w rounds fuel r').0 ≢ out_of_fuel)
      → o ≢ out_of_fuel
      → pending_work r ≤ n
      → n ≤ fuel
      → n < rounds
      → (continue o (λ _. serve event_type w rounds fuel) r).0 ≢ out_of_fuel
  serve_drained rounds fuel n (returned a) r ih ne h k l = ih r (omega arith) (omega arith)
  serve_drained rounds fuel n (raised e) r ih ne h k l = λ e. cc
  serve_drained rounds fuel n out_of_fuel r ih ne h k l = absurd (ne refl)

  serve_round :
      (rounds fuel : ℕ) (es : List (WorkflowEvent P)) (r : CallRun P)
      → ((r' : CallRun P)
          → pending_work r' ≤ fuel
          → pending_work r' < rounds
          → (serve event_type w rounds fuel r').0 ≢ out_of_fuel)
      → r.fields.events ≡ es
      → awake r.fields ≡ true
      → r.fields.is_done ≡ false
      → pending_work r ≤ fuel
      → pending_work r ≤ rounds
      → let (o, r') = drain_events event_type w fuel es r in
        (continue o (λ _. serve event_type w rounds fuel) r').0 ≢ out_of_fuel
  serve_round rounds fuel [] r ih q a d h k = absurd (ground arith)
  serve_round rounds zero (e ∷ es) r ih q a d h k = absurd (omega (arith, ap length q))
  serve_round rounds (suc fuel) (e ∷ es) r ih q a d h k =
      let l = drain_step fuel e es r (drain-Leaves fuel) q h in
      let n : length r.fields.events ≡ suc (length es) = ap length q in
      let (o, r') = drain_events event_type w (suc fuel) (e ∷ es) r in
      serve_drained rounds (suc fuel) (pending_work r - 1) o r' ih l.ended l.left (omega (arith, h))
        (omega (arith, k, n))

  -- The loop over a round's wait, by how the wait ended.
  serve_waited :
      (rounds fuel : ℕ) (o : Outcome (Unit {0})) (r : CallRun P)
      → ((r' : CallRun P)
          → pending_work r' ≤ fuel
          → pending_work r' < rounds
          → (serve event_type w rounds fuel r').0 ≢ out_of_fuel)
      → o ≢ out_of_fuel
      → (o ≡ returned tt → awake r.fields ≡ true)
      → r.fields.is_done ≡ false
      → pending_work r ≤ fuel
      → pending_work r ≤ rounds
      → (continue o
          (λ _. ◌>>=◌ (drain event_type w fuel) (λ _. serve event_type w rounds fuel))
          r).0
        ≢ out_of_fuel
  unfolding ◌>>=◌ drain
  serve_waited rounds fuel (returned tt) r ih ne a d h k =
      serve_round rounds fuel r.fields.events r ih refl (a refl) d h k
  serve_waited rounds fuel (raised e) r ih ne a d h k = λ e. cc
  serve_waited rounds fuel out_of_fuel r ih ne a d h k = absurd (ne refl)

  -- How a wait ends.
  record Waits (r : CallRun P) (res : Outcome (Unit {0}) × CallRun P) : Type 0 where
    waits_ends : res.0 ≢ out_of_fuel
    waits_awake : res.0 ≡ returned tt → awake res.1.fields ≡ true
    waits_done : res.1.fields.is_done ≡ r.fields.is_done
    waits_work : pending_work res.1 ≡ pending_work r

  done-deliver : (r : CallRun P) → (deliver signal r).fields.is_done ≡ r.fields.is_done
  unfolding deliver
  done-deliver r = fields-signals r.fields (head_signals r.coming)

  wait-Waits : (r : CallRun P) → Waits r (wait_condition signal awake r)
  unfolding wait_condition
  wait-Waits r = ground (arith, pending-deliver r, done-deliver r)

  serve_ends :
      (rounds fuel : ℕ) (r : CallRun P)
      → pending_work r ≤ fuel
      → pending_work r < rounds
      → (serve event_type w rounds fuel r).0 ≢ out_of_fuel
  unfolding serve ◌>>=◌
  serve_ends zero fuel r h k = absurd (omega arith)
  serve_ends (suc rounds) fuel r h k =
      if_ends r.fields.is_done (returned tt, r) _ (λ d e. cc)
        λ d.
          let v = wait-Waits r in
          let (o, r') = wait_condition signal awake r in
          serve_waited rounds fuel o r' (serve_ends rounds fuel) v.waits_ends v.waits_awake
            (v.waits_done ∙ d) (omega (arith, v.waits_work)) (omega (arith, v.waits_work))

  caught :
      (o : Outcome (Unit {0})) (r : CallRun P)
      → o ≢ out_of_fuel
      → (on_timeout w o r).0 ≢ out_of_fuel
  caught (returned a) r ne = λ e. cc
  caught (raised timeout_error) r ne = (recover-IsSteady w).ends r
  caught (raised (activity_error m)) r ne = λ e. cc
  caught out_of_fuel r ne = absurd (ne refl)

  try_ends :
      (rounds fuel : ℕ) (r : CallRun P)
      → pending_work r ≤ fuel
      → pending_work r < rounds
      → (try_serve event_type w rounds fuel r).0 ≢ out_of_fuel
  try_ends rounds fuel r h k =
      let (o, r') = serve event_type w rounds fuel r in caught o r' (serve_ends rounds fuel r h k)

  returned_ends :
      (o : Outcome (Unit {0})) (f : Unit {0} → Action P Returned) (r : CallRun P)
      → o ≢ out_of_fuel
      → (o ≡ returned tt → (f tt r).0 ≢ out_of_fuel)
      → (continue o f r).0 ≢ out_of_fuel
  returned_ends (returned tt) f r ne h = h refl
  returned_ends (raised e) f r ne h = λ e. cc
  returned_ends out_of_fuel f r ne h = absurd (ne refl)

  -- Whatever the activities answer and whenever the signals come, the workflow ends, by a return or an
  -- error: it needs no more rounds, and no more events in a round, than there are signals in all.
  pub run_workflow_ends :
      (call_id : String) (rounds fuel : ℕ)
      → count_coming w.script ≤ fuel
      → count_coming w.script < rounds
      → (run_workflow event_type w rounds fuel (start w (init call_id))).0 ≢ out_of_fuel
  unfolding run_workflow ◌>>=◌ start init
  run_workflow_ends call_id rounds fuel h k =
      let p = persist-IsSteady w in
      let r = start w (init call_id) in
      let (o, r') = persist w r in
      returned_ends o _ r' (p.ends r) λ _.
        let (o', r'') = try_serve event_type w rounds fuel r' in
        returned_ends o' _ r''
          (try_ends rounds fuel r' (omega (arith, p.keeps r)) (omega (arith, p.keeps r)))
          (λ _ e. cc)

-- ===== src/Worker/Call/LastEvent.antt =====
-- The state after a queue of events is that of its last event, also when an earlier one ended the call.
use voice_mesh.Prelude.{
  ℕ, zero, suc, ◌≡◌, refl, ◌∙◌, String, Bool, ◌⊎◌, Option, List, [], ◌∷◌, ◌++◌, arith,
  if◌then◌else◌, is_text, truthy, sym, subst,
}
use voice_mesh.Worker.Flow.{
  Outcome, returned, raised, out_of_fuel, World, ◌>>=◌, continue, pure, gets, modify, execute,
  deliver,
}
use voice_mesh.Worker.Call.{
  CallState, in_progress, backpressure_active, fallback_selected, recovery_required, done, Kind,
  started, pipeline, provider_failed, completed, failed, WorkflowEvent, CallWorkflow, Activity,
  Reply, signal, Action, CallRun, set_state, persist, apply, drain_events, drain,
}
use voice_mesh.Worker.Call.Persisted.{modify-persist}
use voice_mesh.Worker.Flow.Rules.{Ensures, bind-Ensures, continue_post}

module _ {P : Type 0} (event_type : P → Option String) where
  -- The states in which an event leaves the workflow.
  abbrev pub Settles : Kind → P → CallState → Type 0
  Settles started p s = s ≡ in_progress
  Settles pipeline p s =
      s ≡ (if is_text "pipeline.corked" (event_type p) then backpressure_active else in_progress)
  Settles provider_failed p s = (s ≡ fallback_selected) ⊎ (s ≡ recovery_required)
  Settles completed p s = s ≡ done
  Settles failed p s = s ≡ done

module _ {P : Type 0} where
  -- With no signal to come, an action leaves the queue of events alone.
  record IsQuiet {A : Type 0} (m : Action P A) : Type 0 where
    at :
        (r : CallRun P)
        → r.coming ≡ []
        → ((m r).1.coming ≡ []) × ((m r).1.fields.events ≡ r.fields.events)

  pure-IsQuiet : {A : Type 0} (a : A) → IsQuiet (pure a)
  unfolding pure
  pure-IsQuiet a = record { at = λ r h. (h, refl) }

  gets-IsQuiet : {A : Type 0} (f : CallWorkflow P → A) → IsQuiet (gets f)
  unfolding gets
  gets-IsQuiet f = record { at = λ r h. (h, refl) }

  modify-IsQuiet :
      (f : CallWorkflow P → CallWorkflow P)
      → ((s : CallWorkflow P) → (f s).events ≡ s.events)
      → IsQuiet (modify f)
  unfolding modify
  modify-IsQuiet f h = record { at = λ r q. (q, h r.fields) }

  continue-IsQuiet :
      {A B : Type 0} (o : Outcome A) (f : A → Action P B)
      → ((a : A) → IsQuiet (f a))
      → IsQuiet (continue o f)
  continue-IsQuiet (returned a) f h = h a
  continue-IsQuiet (raised e) f h = record { at = λ r q. (q, refl) }
  continue-IsQuiet out_of_fuel f h = record { at = λ r q. (q, refl) }

  bind-IsQuiet :
      {A B : Type 0} (m : Action P A) (f : A → Action P B)
      → IsQuiet m
      → ((a : A) → IsQuiet (f a))
      → IsQuiet (m >>= f)
  unfolding ◌>>=◌
  bind-IsQuiet m f hm hf = record {
    at = λ r q.
        let (c, e) = hm.at r q in
        let (c', e') = (continue-IsQuiet (m r).0 f hf).at (m r).1 c in (c', e' ∙ e);
  }

module _ {P : Type 0} (w : World (WorkflowEvent P) (Activity P) Reply) where
  execute-IsQuiet : (a : Activity P) → IsQuiet (execute w signal a)
  unfolding execute deliver
  execute-IsQuiet a = record { at = λ r q. rw q (refl, refl) }

  set_state-IsQuiet : (s : CallState) → IsQuiet (set_state {P = P} s)
  set_state-IsQuiet s = modify-IsQuiet _ (λ r. refl)

  ruleset quiet_rules = (
    pure-IsQuiet, gets-IsQuiet, bind-IsQuiet, execute-IsQuiet, set_state-IsQuiet, modify-IsQuiet,
    refl,
  )

  persist-IsQuiet : IsQuiet (persist w)
  unfolding persist
  persist-IsQuiet = search quiet_rules

  apply-IsQuiet : (t : P → Option String) (k : Kind) (p : P) → IsQuiet (apply w t k p)
  unfolding apply
  apply-IsQuiet t started p = search (quiet_rules, persist-IsQuiet) depth 16
  apply-IsQuiet t pipeline p = search (quiet_rules, persist-IsQuiet) depth 16
  apply-IsQuiet t provider_failed p = search (quiet_rules, persist-IsQuiet) depth 16
  apply-IsQuiet t completed p = search (quiet_rules, persist-IsQuiet) depth 16
  apply-IsQuiet t failed p = search (quiet_rules, persist-IsQuiet) depth 16

  fallback_state :
      (b : Bool) (s : CallState)
      → s ≡ (if b then fallback_selected else recovery_required)
      → (s ≡ fallback_selected) ⊎ (s ≡ recovery_required)
  fallback_state b s e = ground arith

  apply-Settles :
      (t : P → Option String) (k : Kind) (p : P)
      → Ensures (λ r. Settles t k p r.fields.state) (apply w t k p)
  unfolding apply
  apply-Settles t started p = search (bind-Ensures, modify-persist) depth 14
  apply-Settles t pipeline p = search (bind-Ensures, modify-persist) depth 14
  apply-Settles t provider_failed p =
      let Q = λ (r : CallRun P). Settles t provider_failed p r.fields.state in
      bind-Ensures Q _ _ λ _. bind-Ensures Q _ _ λ _. bind-Ensures Q _ _ λ s.
        bind-Ensures Q _ _ λ f.
          modify-persist w Q _
            λ r s h e d. fallback_state (truthy f.fallback_provider) r.fields.state e
  apply-Settles t completed p = search (bind-Ensures, modify-persist) depth 14
  apply-Settles t failed p = search (bind-Ensures, modify-persist) depth 14

module _ {P : Type 0} (event_type : P → Option String)
    (w : World (WorkflowEvent P) (Activity P) Reply) where
  -- A drain of `fs` leaves the state of `e` if it returns.
  abbrev Reaches : WorkflowEvent P → ℕ → CallRun P → List (WorkflowEvent P) → Type 0
  Reaches e fuel r fs =
      (a : Unit {0})
      → (drain_events event_type w fuel fs r).0 ≡ returned a
      → Settles event_type e.kind e.payload (drain_events event_type w fuel fs r).1.fields.state

  drain_settled :
      (e : WorkflowEvent P) (fuel : ℕ) (r : CallRun P)
      → Settles event_type e.kind e.payload r.fields.state
      → Reaches e fuel r []
  unfolding drain_events
  drain_settled e fuel r h a q = h

  drain-Reaches :
      (e : WorkflowEvent P) (fuel : ℕ) (es : List (WorkflowEvent P)) (r : CallRun P)
      → r.coming ≡ []
      → Reaches e fuel r (es ++ e ∷ [])
  unfolding drain_events ◌>>=◌
  drain-Reaches e zero [] r c a q = cc
  drain-Reaches e zero (x ∷ es) r c a q = cc
  drain-Reaches e (suc fuel) [] r c a q =
      let popped : CallRun P = record r { fields = record r.fields { events = [] } } in
      let quiet = (apply-IsQuiet w event_type e.kind e.payload).at popped c in
      let (o, r') = apply w event_type e.kind e.payload popped in
      continue_post (λ r. Settles event_type e.kind e.payload r.fields.state) o _ r' a
        (λ b p.
          subst (Reaches e fuel r') (sym quiet.1)
            (drain_settled e fuel r' ((apply-Settles w event_type e.kind e.payload).at popped b p))
            a)
        q
  drain-Reaches e (suc fuel) (x ∷ es) r c a q =
      let popped : CallRun P = record r { fields = record r.fields { events = es ++ e ∷ [] } } in
      let quiet = (apply-IsQuiet w event_type x.kind x.payload).at popped c in
      let (o, r') = apply w event_type x.kind x.payload popped in
      continue_post (λ r. Settles event_type e.kind e.payload r.fields.state) o _ r' a
        (λ b p. subst (Reaches e fuel r') (sym quiet.1) (drain-Reaches e fuel es r' quiet.0) a) q

  -- With no signal still to come, a round over a non-empty queue that returns leaves the workflow in
  -- the state of the last event, whatever stands before it: behind `call_completed` or `call_failed`
  -- a queued `call_started` or pipeline event takes the workflow out of DONE again.
  pub drain-last_event :
      (fuel : ℕ) (es : List (WorkflowEvent P)) (e : WorkflowEvent P) (r : CallRun P) (a : Unit {0})
      → r.fields.events ≡ es ++ e ∷ []
      → r.coming ≡ []
      → (drain event_type w fuel r).0 ≡ returned a
      → Settles event_type e.kind e.payload (drain event_type w fuel r).1.fields.state
  unfolding drain
  drain-last_event fuel es e r a q c =
      subst (Reaches e fuel r) (sym q) (drain-Reaches e fuel es r c) a

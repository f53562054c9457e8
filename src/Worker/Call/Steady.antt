-- ===== src/Worker/Call/Steady.antt =====
-- The parts of the call workflow that end with as many events left as they found, or as came.
use voice_mesh.Prelude.{
  ℕ, ◌+◌, ◌≡◌, ◌≢◌, refl, ◌∙◌, String, Option, List, [], ◌∷◌, arith, length, length-append,
}
use voice_mesh.Prelude.Traces.{run}
use voice_mesh.Worker.Flow.{
  Outcome, returned, raised, out_of_fuel, World, ◌>>=◌, continue, pure, gets, modify, execute,
  deliver, head_signals, tail_signals,
}
use voice_mesh.Worker.Flow.Rules.{outcome-ne}
use voice_mesh.Worker.Call.{
  CallState, Kind, started, pipeline, provider_failed, completed, failed, WorkflowEvent,
  CallWorkflow, Activity, Reply, signal, Action, CallRun, set_state, persist, apply, recover,
}

-- The signals that an await may still bring.
abbrev pub count_coming : {Sig : Type 0} → List (List Sig) → ℕ
count_coming [] = 0
count_coming (s ∷ ss) = length s + count_coming ss

module _ {P : Type 0} where
  -- The events that wait, and those that may come.
  abbrev pub pending_work : CallRun P → ℕ
  pending_work r = length r.fields.events + count_coming r.coming

  length-signals :
      (s : CallWorkflow P) (es : List (WorkflowEvent P))
      → length (run signal s es).events ≡ length s.events + length es
  length-signals s [] = omega arith
  length-signals s (e ∷ es) =
      omega (arith, length-signals (signal s e) es, length-append s.events (e ∷ []))

  coming_split :
      (ss : List (List (WorkflowEvent P)))
      → length (head_signals ss) + count_coming (tail_signals ss) ≡ count_coming ss
  coming_split [] = refl
  coming_split (s ∷ ss) = refl

  pub pending-deliver : (r : CallRun P) → pending_work (deliver signal r) ≡ pending_work r
  unfolding deliver
  pending-deliver r =
      omega (arith, length-signals r.fields (head_signals r.coming), coming_split r.coming)

  -- An action that ends with the events that it found, or that came.
  pub record IsSteady {A : Type 0} (m : Action P A) : Type 0 where
    pub keeps : (r : CallRun P) → pending_work (m r).1 ≡ pending_work r
    pub ends : (r : CallRun P) → (m r).0 ≢ out_of_fuel

  pure-IsSteady : {A : Type 0} (a : A) → IsSteady (pure a)
  unfolding pure
  pure-IsSteady a = record { keeps = λ r. refl; ends = λ r e. cc }

  gets-IsSteady : {A : Type 0} (f : CallWorkflow P → A) → IsSteady (gets f)
  unfolding gets
  gets-IsSteady f = record { keeps = λ r. refl; ends = λ r e. cc }

  modify-IsSteady :
      (f : CallWorkflow P → CallWorkflow P)
      → ((s : CallWorkflow P) → (f s).events ≡ s.events)
      → IsSteady (modify f)
  unfolding modify
  modify-IsSteady f h = record { keeps = λ r. rw (h r.fields); ends = λ r e. cc }

  continue-IsSteady :
      {A B : Type 0} (o : Outcome A) (f : A → Action P B)
      → o ≢ out_of_fuel
      → ((a : A) → IsSteady (f a))
      → IsSteady (continue o f)
  continue-IsSteady (returned a) f n h = h a
  continue-IsSteady (raised e) f n h = record { keeps = λ r. refl; ends = λ r e. cc }
  continue-IsSteady out_of_fuel f n h = absurd (n refl)

  bind-IsSteady :
      {A B : Type 0} (m : Action P A) (f : A → Action P B)
      → IsSteady m
      → ((a : A) → IsSteady (f a))
      → IsSteady (m >>= f)
  unfolding ◌>>=◌
  bind-IsSteady m f hm hf = record {
    keeps = λ r. (continue-IsSteady (m r).0 f (hm.ends r) hf).keeps (m r).1 ∙ hm.keeps r;
    ends = λ r. (continue-IsSteady (m r).0 f (hm.ends r) hf).ends (m r).1;
  }

module _ {P : Type 0} (w : World (WorkflowEvent P) (Activity P) Reply) where
  execute-IsSteady : (a : Activity P) → IsSteady (execute w signal a)
  unfolding execute
  execute-IsSteady a = record {
    keeps = λ r. pending-deliver r;
    ends = λ r. outcome-ne (w.answer r.tick a);
  }

  set_state-IsSteady : (s : CallState) → IsSteady (set_state {P = P} s)
  set_state-IsSteady s = modify-IsSteady _ (λ r. refl)

  ruleset steady_rules = (
    pure-IsSteady, gets-IsSteady, bind-IsSteady, execute-IsSteady, set_state-IsSteady,
    modify-IsSteady, refl,
  )

  pub persist-IsSteady : IsSteady (persist w)
  unfolding persist
  persist-IsSteady = search steady_rules

  pub recover-IsSteady : IsSteady (recover w)
  unfolding recover
  recover-IsSteady = search (steady_rules, persist-IsSteady) depth 16

  pub apply-IsSteady :
      (event_type : P → Option String) (k : Kind) (p : P) → IsSteady (apply w event_type k p)
  unfolding apply
  apply-IsSteady t started p = search (steady_rules, persist-IsSteady) depth 16
  apply-IsSteady t pipeline p = search (steady_rules, persist-IsSteady) depth 16
  apply-IsSteady t provider_failed p = search (steady_rules, persist-IsSteady) depth 16
  apply-IsSteady t completed p = search (steady_rules, persist-IsSteady) depth 16
  apply-IsSteady t failed p = search (steady_rules, persist-IsSteady) depth 16

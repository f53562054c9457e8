-- ===== src/Worker/Billing/Ready.antt =====
-- A call is finalized as complete only when its usage is.
use voice_mesh.Prelude.{
  ℕ, zero, suc, ◌+◌, ◌≡◌, refl, subst, some, Bool, true, false, not, ◌&&◌, ◌||◌, List, [], ◌∷◌,
  arith, if◌then◌else◌, leb, ltb,
}
use voice_mesh.Worker.Flow.{
  timeout_error, activity_error, Outcome, returned, raised, out_of_fuel, World, ◌>>=◌, ◌>>◌,
  continue, pure, gets, modify, execute, wait_condition, deliver, start, outcome_of,
}
use voice_mesh.Worker.Flow.Rules.{
  Keeps, bind-Keeps, continue_kept, continue_post, if-Keeps, if_kept, if_post, pure-Keeps,
  gets-Keeps,
}
use voice_mesh.Worker.Billing.{
  BillingState, finalized, finalizing, BillingConfig, Billing, Signal, Finalization, Activity,
  finalize_call_billing, load_billing_readiness, emit_workflow_event, Reply, signal, BillingRun,
  is_ready, none_missing, load_readiness, ignore_timeout, wait_for_update, wait_round, settle,
  finalize, attempt, handle_error, run_workflow, wait_seconds, init,
}

abbrev pub is_finalized : BillingState → Bool
is_finalized finalized = true
is_finalized _ = false

-- Nothing is missing in the request.
abbrev pub is_complete : Finalization → Bool
is_complete f =
    not f.manifest_missing
    && f.projection_caught_up
    && none_missing f.missing_usage_types
    && none_missing f.missing_expectations

-- Every request to finalize as FINALIZED is complete.
abbrev pub AllComplete : List Activity → Type 0
AllComplete [] = Unit
AllComplete (finalize_call_billing f ∷ cs) =
    ((not (is_finalized f.status) || is_complete f) ≡ true) × AllComplete cs
AllComplete (_ ∷ cs) = AllComplete cs

abbrev IsSound : BillingRun → Type 0
IsSound r = AllComplete r.calls

returned_inj : {A : Type 0} {a b : A} → returned a ≡ returned b → a ≡ b
returned_inj q = cc

module _ (w : World Signal Activity Reply) where
  modify-IsSound : (f : Billing → Billing) → Keeps IsSound (modify f)
  unfolding modify
  modify-IsSound f = record { kept = λ r h. h }

  load-IsSound : Keeps IsSound (execute w signal load_billing_readiness)
  unfolding execute deliver
  load-IsSound = record { kept = λ r h. h }

  emit-IsSound : Keeps IsSound (execute w signal emit_workflow_event)
  unfolding execute deliver
  emit-IsSound = record { kept = λ r h. h }

  wait-IsSound : (test : Billing → Bool) → Keeps IsSound (wait_condition signal test)
  unfolding wait_condition deliver
  wait-IsSound test = record {
    kept = λ r h.
        if_kept IsSound (test r.fields) (returned tt, r) _ h
          (if_kept IsSound (test (deliver signal r).fields) (returned tt, deliver signal r)
            (raised timeout_error, deliver signal r) h h);
  }

  load_readiness-IsSound : Keeps IsSound (load_readiness w)
  unfolding load_readiness
  load_readiness-IsSound =
      bind-Keeps IsSound _ _ load-IsSound
        (λ reply. bind-Keeps IsSound _ _ (modify-IsSound _) (λ _. gets-Keeps IsSound is_ready))

  ignored-IsSound :
      (o : Outcome (Unit {0})) (r : BillingRun) → IsSound r → IsSound (ignore_timeout w o r).1
  ignored-IsSound (returned a) r h = h
  ignored-IsSound (raised timeout_error) r h = h
  ignored-IsSound (raised (activity_error m)) r h = h
  ignored-IsSound out_of_fuel r h = h

  wait_for_update-IsSound : (n : ℕ) → Keeps IsSound (wait_for_update w n)
  unfolding wait_for_update
  wait_for_update-IsSound n = record {
    kept = λ r h.
        let test : Billing → Bool = λ b. ltb n b.projection_update_count in
        let (o, r') = wait_condition signal test r in
        ignored-IsSound o r' ((wait-IsSound test).kept r h);
  }

  wait_round-IsSound : Keeps IsSound (wait_round w)
  unfolding wait_round
  wait_round-IsSound = bind-Keeps IsSound _ _ (modify-IsSound _) (λ _.
      bind-Keeps IsSound _ _ (gets-Keeps IsSound (λ b. b.projection_update_count))
        (λ n. wait_for_update-IsSound n))

  settle-IsSound :
      (fuel : ℕ) (c : BillingConfig) (elapsed : ℕ) → Keeps IsSound (settle w fuel c elapsed)
  unfolding settle
  settle-IsSound zero c elapsed = record { kept = λ r h. h }
  settle-IsSound (suc fuel) c elapsed = record {
    kept = λ r h.
        if_kept IsSound (leb elapsed c.wait_timeout_seconds) _ (returned false, r)
          ((bind-Keeps IsSound _ _ load_readiness-IsSound (λ ready.
              if-Keeps IsSound ready _ _ (pure-Keeps IsSound true) (
                bind-Keeps IsSound _ _ wait_round-IsSound
                  (λ _. settle-IsSound fuel c (elapsed + wait_seconds c))))).kept
            r h)
          h;
  }

  -- What the readiness was when the loop stopped for it.
  abbrev pub Fits : Bool → BillingRun → Type 0
  Fits ready r = (not ready || is_ready r.fields) ≡ true

  load_readiness_tells :
      (r : BillingRun) (ready : Bool)
      → (load_readiness w r).0 ≡ returned ready
      → is_ready (load_readiness w r).1.fields ≡ ready
  unfolding load_readiness ◌>>=◌ gets modify
  load_readiness_tells r ready q =
      let (o, r') = execute w signal load_billing_readiness r in
      continue_post (λ (r : BillingRun). is_ready r.fields ≡ ready) o _ r' ready
        (λ reply p k. returned_inj k) q

  pub settle-Fits :
      (fuel : ℕ) (c : BillingConfig) (elapsed : ℕ) (r : BillingRun) (ready : Bool)
      → (settle w fuel c elapsed r).0 ≡ returned ready
      → Fits ready (settle w fuel c elapsed r).1
  unfolding settle ◌>>=◌ pure
  settle-Fits zero c elapsed r ready q = cc
  settle-Fits (suc fuel) c elapsed r ready q =
      if_post (Fits ready) (leb elapsed c.wait_timeout_seconds) _ (returned false, r) ready
        (λ _.
          continue_post (Fits ready) (load_readiness w r).0 _ (load_readiness w r).1 ready
            (λ found p k.
              stopped (settle-Fits fuel c (elapsed + wait_seconds c)) found (load_readiness w r).1
                (load_readiness_tells r found p) k))
        (λ _ k. subst (λ b. Fits b r) (returned_inj k) refl) q
    where
      stopped :
          ((s : BillingRun) (b : Bool)
            → (settle w fuel c (elapsed + wait_seconds c) s).0 ≡ returned b
            → Fits b (settle w fuel c (elapsed + wait_seconds c) s).1)
          → (found : Bool) (r' : BillingRun) → is_ready r'.fields ≡ found
          → ((if found
                then pure true
                else (do wait_round w; settle w fuel c (elapsed + wait_seconds c)))
              r').0
            ≡ returned ready
          → Fits ready
              ((if found
                  then pure true
                  else (do wait_round w; settle w fuel c (elapsed + wait_seconds c)))
                r').1
      stopped ih true r' e k = subst (λ b. Fits b r') (returned_inj k) e
      stopped ih false r' e k =
          continue_post (Fits ready) (wait_round w r').0 _ (wait_round w r').1 ready
            (λ _ _ k'. ih (wait_round w r').1 ready k') k

  -- What follows the request keeps the calls sound.
  after_request-IsSound :
      (result : Reply)
      → Keeps IsSound (do
        modify (λ b. record b {
          total_cost_cents = some result.total_cost_cents;
          warnings = result.warnings;
          state = result.status;
        })
        execute w signal emit_workflow_event
        pure tt)
  after_request-IsSound result =
      bind-Keeps IsSound _ _ (modify-IsSound _)
        (λ _. bind-Keeps IsSound _ _ emit-IsSound (λ _. pure-Keeps IsSound tt))

  request_complete :
      (c : BillingConfig) (ready : Bool) (b : Billing)
      → is_finalized c.missing_usage_policy ≡ false
      → (not ready || is_ready b) ≡ true
      → (not (is_finalized (if ready then finalized else c.missing_usage_policy))
          || (not (not b.manifest_present)
              && b.projection_caught_up
              && none_missing b.missing_usage_types
              && none_missing b.missing_expectations))
        ≡ true
  request_complete c ready b p f = ground arith

  finalize-IsSound :
      (c : BillingConfig) (ready : Bool) (r : BillingRun)
      → is_finalized c.missing_usage_policy ≡ false
      → Fits ready r
      → IsSound r
      → IsSound (finalize w c ready r).1
  unfolding finalize ◌>>=◌ gets modify execute deliver
  finalize-IsSound c ready r p f h =
      let b = record r.fields { state = finalizing } in
      let asked : Activity = finalize_call_billing (record {
        missing_usage_types = b.missing_usage_types;
        missing_expectations = b.missing_expectations;
        manifest_missing = not b.manifest_present;
        projection_caught_up = b.projection_caught_up;
        status = if ready then finalized else c.missing_usage_policy;
      }) in
      let r' : BillingRun = record (deliver signal (record r { fields = b })) {
        calls = asked ∷ r.calls;
      } in
      let sound : IsSound r' = (request_complete c ready r.fields p f, h) in
      continue_kept IsSound (outcome_of (w.answer r.tick asked)) _ r' sound
        (λ result _. (after_request-IsSound result).kept r' sound)

  attempt-IsSound :
      (fuel : ℕ) (c : BillingConfig) (r : BillingRun)
      → is_finalized c.missing_usage_policy ≡ false
      → IsSound r
      → IsSound (attempt w fuel c r).1
  unfolding attempt ◌>>=◌
  attempt-IsSound fuel c r p h =
      let (o, r') = wait_condition signal (λ b. b.call_ended) r in
      let (o', r'') = settle w fuel c 0 r' in
      let h' = (wait-IsSound (λ b. b.call_ended)).kept r h in
      let h'' = (settle-IsSound fuel c 0).kept r' h' in
      continue_kept IsSound o _ r' h' (λ _ _.
        continue_kept IsSound o' _ r'' h''
          (λ ready q. finalize-IsSound c ready r'' p (settle-Fits fuel c 0 r' ready q) h''))

  handled-IsSound :
      (o : Outcome (Unit {0})) (r : BillingRun)
      → IsSound r
      → IsSound (continue (handle_error w o r).0 (λ _. gets (λ b. b)) (handle_error w o r).1).1
  unfolding gets modify pure
  handled-IsSound (returned a) r h = h
  handled-IsSound (raised e) r h = h
  handled-IsSound out_of_fuel r h = h

  -- Unless the policy for missing usage is FINALIZED itself, every request to finalize a call as
  -- FINALIZED is made with the manifest present, the projection caught up, and no usage type and no
  -- expectation missing.
  pub run_workflow-AllComplete :
      (c : BillingConfig) (fuel : ℕ) (call_ended : Bool)
      → is_finalized c.missing_usage_policy ≡ false
      → AllComplete (run_workflow w fuel c (start w (init call_ended))).1.calls
  unfolding run_workflow ◌>>=◌
  run_workflow-AllComplete c fuel call_ended p =
      let r = start w (init call_ended) in
      let (o, r') = attempt w fuel c r in
      handled-IsSound o r' (attempt-IsSound fuel c r p (unfold start in tt))

-- ===== src/Worker/Billing/Grounded.antt =====
-- Where the replies on readiness come from the tables, a call is finalized as complete only when its
-- tables are.
use voice_mesh.Prelude.{
  ℕ, zero, suc, ◌+◌, ◌≡◌, refl, sym, subst, some, Bool, true, false, not, ◌&&◌, ◌||◌, List, [], ◌∷◌,
  if◌then◌else◌, leb, ltb, ◌∙◌,
}
use voice_mesh.Prelude.Traces.{run}
use voice_mesh.Worker.Flow.{
  Answer, reply, failure, timeout_error, activity_error, Outcome, returned, raised, out_of_fuel,
  World, ◌>>=◌, ◌>>◌, continue, pure, gets, modify, execute, wait_condition, deliver, start,
  outcome_of, head_signals,
}
use voice_mesh.Worker.Flow.Rules.{
  Keeps, bind-Keeps, continue_kept, if-Keeps, if_kept, pure-Keeps, gets-Keeps,
}
use voice_mesh.Worker.Billing.{
  finalized, finalizing, BillingConfig, Billing, Signal, Activity, finalize_call_billing,
  load_billing_readiness, emit_workflow_event, Reply, signal, BillingRun, is_ready, none_missing,
  load_readiness, ignore_timeout, wait_for_update, wait_round, settle, finalize, attempt,
  handle_error, run_workflow, wait_seconds, init, call_ended_signal, usage_recorded,
  usage_projection_updated,
}
use voice_mesh.Worker.Billing.Ready.{is_finalized, settle-Fits}

-- A request to finalize the call as FINALIZED was made.
abbrev pub was_finalized : List Activity → Bool
was_finalized [] = false
was_finalized (finalize_call_billing f ∷ cs) = is_finalized f.status || was_finalized cs
was_finalized (_ ∷ cs) = was_finalized cs

-- The test `ready` on a reply.
abbrev pub says_ready : Reply → Bool
says_ready a =
    a.manifest_present
    && a.projection_caught_up
    && none_missing a.missing_usage_types
    && none_missing a.missing_expectations

abbrev pub OnlyIf : Bool → Type 0 → Type 0
OnlyIf true T = T
OnlyIf false T = Unit {0}

signals_keep : (b : Billing) (ss : List Signal) → is_ready (run signal b ss) ≡ is_ready b
signals_keep b [] = refl
signals_keep b (call_ended_signal ∷ ss) = signals_keep (signal b call_ended_signal) ss
signals_keep b (usage_recorded t ∷ ss) = signals_keep (signal b (usage_recorded t)) ss
signals_keep b (usage_projection_updated ∷ ss) = signals_keep (signal b usage_projection_updated) ss

apart : false ≡ true → ⊥
apart e = cc

replied : (x : Answer Reply) (a : Reply) → outcome_of x ≡ returned a → x ≡ reply a
replied (reply b) a e = cc
replied (failure m) a e = cc

module _ (C : Type 0) where
  -- C holds as soon as the workflow believes the call ready, or has asked for its final bill.
  abbrev pub IsGrounded : BillingRun → Type 0
  IsGrounded r = OnlyIf (is_ready r.fields || was_finalized r.calls) C

  pub grounded_finalized : (p f : Bool) → f ≡ true → OnlyIf (p || f) C → C
  grounded_finalized true f e h = h
  grounded_finalized false true e h = h
  grounded_finalized false false e h = absurd (apart e)

  kept_by :
      (b b' : Billing) (cs : List Activity)
      → is_ready b' ≡ is_ready b
      → OnlyIf (is_ready b || was_finalized cs) C
      → OnlyIf (is_ready b' || was_finalized cs) C
  kept_by b b' cs e h = subst (λ x. OnlyIf (x || was_finalized cs) C) (sym e) h

  deliver-IsGrounded : (r : BillingRun) → IsGrounded r → IsGrounded (deliver signal r)
  unfolding deliver
  deliver-IsGrounded r h =
      let ss = head_signals r.coming in
      kept_by r.fields (run signal r.fields ss) r.calls (signals_keep r.fields ss) h

  modify-IsGrounded :
      (f : Billing → Billing)
      → ((b : Billing) → is_ready (f b) ≡ is_ready b)
      → Keeps IsGrounded (modify f)
  unfolding modify
  modify-IsGrounded f e = record {
    kept = λ r h. kept_by r.fields (f r.fields) r.calls (e r.fields) h;
  }

  wait-IsGrounded : (test : Billing → Bool) → Keeps IsGrounded (wait_condition signal test)
  unfolding wait_condition
  wait-IsGrounded test = record {
    kept = λ r h.
        if_kept IsGrounded (test r.fields) (returned tt, r) _ h
          (if_kept IsGrounded (test (deliver signal r).fields) (returned tt, deliver signal r)
            (raised timeout_error, deliver signal r) (deliver-IsGrounded r h)
            (deliver-IsGrounded r h));
  }

  renewed : (b b' f : Bool) → OnlyIf (b || f) C → (b' ≡ true → C) → OnlyIf (b' || f) C
  renewed b true f h k = k refl
  renewed true false true h k = h
  renewed false false true h k = h
  renewed b false false h k = tt

  ignored-IsGrounded :
      (w : World Signal Activity Reply) (o : Outcome (Unit {0})) (r : BillingRun)
      → IsGrounded r
      → IsGrounded (ignore_timeout w o r).1
  ignored-IsGrounded w (returned a) r h = h
  ignored-IsGrounded w (raised timeout_error) r h = h
  ignored-IsGrounded w (raised (activity_error m)) r h = h
  ignored-IsGrounded w out_of_fuel r h = h

  wait_round-IsGrounded : (w : World Signal Activity Reply) → Keeps IsGrounded (wait_round w)
  unfolding wait_round wait_for_update
  wait_round-IsGrounded w = bind-Keeps IsGrounded _ _ (modify-IsGrounded _ (λ b. refl)) (λ _.
      bind-Keeps IsGrounded _ _ (gets-Keeps IsGrounded (λ b. b.projection_update_count)) (λ n.
        record {
          kept = λ r h.
              let test : Billing → Bool = λ b. ltb n b.projection_update_count in
              let (o, r') = wait_condition signal test r in
              ignored-IsGrounded w o r' ((wait-IsGrounded test).kept r h);
        }))

  emit-IsGrounded :
      (w : World Signal Activity Reply) → Keeps IsGrounded (execute w signal emit_workflow_event)
  unfolding execute
  emit-IsGrounded w = record { kept = λ r h. unfold deliver in deliver-IsGrounded r h }

  after_request-IsGrounded :
      (w : World Signal Activity Reply) (result : Reply)
      → Keeps IsGrounded (do
        modify (λ b. record b {
          total_cost_cents = some result.total_cost_cents;
          warnings = result.warnings;
          state = result.status;
        })
        execute w signal emit_workflow_event
        pure tt)
  after_request-IsGrounded w result =
      bind-Keeps IsGrounded _ _ (modify-IsGrounded _ (λ b. refl))
        (λ _. bind-Keeps IsGrounded _ _ (emit-IsGrounded w) (λ _. pure-Keeps IsGrounded tt))

  requested : (p f s : Bool) → OnlyIf (p || f) C → (s ≡ true → p ≡ true) → OnlyIf (p || (s || f)) C
  requested true f s h k = h
  requested false f true h k = absurd (apart (k refl))
  requested false f false h k = h

  asked_when_ready :
      (c : BillingConfig) (ready : Bool) (r : BillingRun)
      → is_finalized c.missing_usage_policy ≡ false
      → (not ready || is_ready r.fields) ≡ true
      → is_finalized (if ready then finalized else c.missing_usage_policy) ≡ true
      → is_ready r.fields ≡ true
  asked_when_ready c true r p f s = f
  asked_when_ready c false r p f s = absurd (apart (sym p ∙ s))

  finalize-IsGrounded :
      (w : World Signal Activity Reply) (c : BillingConfig) (ready : Bool) (r : BillingRun)
      → is_finalized c.missing_usage_policy ≡ false
      → (not ready || is_ready r.fields) ≡ true
      → IsGrounded r
      → IsGrounded (finalize w c ready r).1
  unfolding finalize ◌>>=◌ gets modify execute deliver
  finalize-IsGrounded w c ready r p f h =
      let b = record r.fields { state = finalizing } in
      let asked : Activity = finalize_call_billing (record {
        missing_usage_types = b.missing_usage_types;
        missing_expectations = b.missing_expectations;
        manifest_missing = not b.manifest_present;
        projection_caught_up = b.projection_caught_up;
        status = if ready then finalized else c.missing_usage_policy;
      }) in
      let r' : BillingRun = record (deliver signal (record r { fields = b })) {
        calls = asked ∷ r.calls;
      } in
      let grounded : IsGrounded r' =
        kept_by b r'.fields r'.calls (signals_keep b (head_signals r.coming)) (
          requested (is_ready r.fields) (was_finalized r.calls)
            (is_finalized (if ready then finalized else c.missing_usage_policy)) h
            (asked_when_ready c ready r p f)) in
      continue_kept IsGrounded (outcome_of (w.answer r.tick asked)) _ r' grounded
        (λ result _. (after_request-IsGrounded w result).kept r' grounded)

  handled-IsGrounded :
      (w : World Signal Activity Reply) (o : Outcome (Unit {0})) (r : BillingRun)
      → IsGrounded r
      → IsGrounded (continue (handle_error w o r).0 (λ _. gets (λ b. b)) (handle_error w o r).1).1
  unfolding gets modify pure
  handled-IsGrounded w (returned a) r h = h
  handled-IsGrounded w (raised e) r h = h
  handled-IsGrounded w out_of_fuel r h = h

  module _ (w : World Signal Activity Reply)
      (tells : (n : ℕ) (a : Reply)
        → w.answer n load_billing_readiness ≡ reply a
        → says_ready a ≡ true
        → C) where
    load_readiness-IsGrounded : Keeps IsGrounded (load_readiness w)
    unfolding load_readiness ◌>>=◌ gets modify execute
    load_readiness-IsGrounded = record {
      kept = λ r h.
          let x = w.answer r.tick load_billing_readiness in
          let r' : BillingRun = record (deliver signal r) {
            calls = load_billing_readiness ∷ r.calls;
          } in
          let h' : IsGrounded r' = unfold deliver in deliver-IsGrounded r h in
          continue_kept IsGrounded (outcome_of x) _ r' h' (λ a e.
            renewed (is_ready r'.fields) (says_ready a) (was_finalized r'.calls) h'
              (tells r.tick a (replied x a e)));
    }

    settle-IsGrounded :
        (fuel : ℕ) (c : BillingConfig) (elapsed : ℕ) → Keeps IsGrounded (settle w fuel c elapsed)
    unfolding settle
    settle-IsGrounded zero c elapsed = record { kept = λ r h. h }
    settle-IsGrounded (suc fuel) c elapsed = record {
      kept = λ r h.
          if_kept IsGrounded (leb elapsed c.wait_timeout_seconds) _ (returned false, r)
            ((bind-Keeps IsGrounded _ _ load_readiness-IsGrounded (λ ready.
                if-Keeps IsGrounded ready _ _ (pure-Keeps IsGrounded true) (
                  bind-Keeps IsGrounded _ _ (wait_round-IsGrounded w)
                    (λ _. settle-IsGrounded fuel c (elapsed + wait_seconds c))))).kept
              r h)
            h;
    }

    attempt-IsGrounded :
        (fuel : ℕ) (c : BillingConfig) (r : BillingRun)
        → is_finalized c.missing_usage_policy ≡ false
        → IsGrounded r
        → IsGrounded (attempt w fuel c r).1
    unfolding attempt ◌>>=◌
    attempt-IsGrounded fuel c r p h =
        let (o, r') = wait_condition signal (λ b. b.call_ended) r in
        let (o', r'') = settle w fuel c 0 r' in
        let h' = (wait-IsGrounded (λ b. b.call_ended)).kept r h in
        let h'' = (settle-IsGrounded fuel c 0).kept r' h' in
        continue_kept IsGrounded o _ r' h' (λ _ _.
          continue_kept IsGrounded o' _ r'' h'' (λ ready q.
            finalize-IsGrounded w c ready r'' p (settle-Fits w fuel c 0 r' ready q) h''))

    pub run_workflow-IsGrounded :
        (c : BillingConfig) (fuel : ℕ) (call_ended : Bool)
        → is_finalized c.missing_usage_policy ≡ false
        → IsGrounded (run_workflow w fuel c (start w (init call_ended))).1
    unfolding run_workflow ◌>>=◌
    run_workflow-IsGrounded c fuel call_ended p =
        let r = start w (init call_ended) in
        let (o, r') = attempt w fuel c r in
        handled-IsGrounded w o r' (attempt-IsGrounded fuel c r p (unfold start init in tt))

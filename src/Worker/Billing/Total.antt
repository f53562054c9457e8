-- ===== src/Worker/Billing/Total.antt =====
-- The billing workflow returns, whatever its activities answer.
use voice_mesh.Prelude.{ℕ, zero, suc, ◌+◌, ◌-◌, ◌<◌, ◌≢◌, refl, Bool, true, arith, leb, ltb}
use voice_mesh.Worker.Flow.{
  timeout_error, activity_error, Outcome, returned, raised, out_of_fuel, World, ◌>>=◌, continue,
  pure, gets, modify, wait_condition, deliver, start,
}
use voice_mesh.Worker.Flow.Rules.{Ends, bind-Ends, if-Ends, if_ends, pure-Ends, ends_rules}
use voice_mesh.Worker.Billing.{
  BillingConfig, Billing, Signal, Activity, Reply, signal, BillingRun, load_readiness,
  ignore_timeout, wait_for_update, wait_round, settle, finalize, attempt, handle_error,
  run_workflow, wait_seconds, init,
}

-- The code returned.
abbrev pub IsReturned : {A : Type 0} → Outcome A → Type 0
IsReturned (returned a) = Unit
IsReturned (raised e) = ⊥
IsReturned out_of_fuel = ⊥

wait-Ends : (test : Billing → Bool) → Ends {Act = Activity} (wait_condition signal test)
unfolding wait_condition
wait-Ends test = record {
  ends = λ r.
      if_ends (test r.fields) _ _ (λ _ e. cc)
        (λ _. if_ends (test (deliver signal r).fields) _ _ (λ _ e. cc) (λ _ e. cc));
}

module _ (w : World Signal Activity Reply) where
  load-Ends : Ends (load_readiness w)
  unfolding load_readiness
  load-Ends = search ends_rules depth 16

  ignored-ne :
      (o : Outcome (Unit {0})) (r : BillingRun)
      → o ≢ out_of_fuel
      → (ignore_timeout w o r).0 ≢ out_of_fuel
  ignored-ne (returned a) r n = n
  ignored-ne (raised timeout_error) r n = λ e. cc
  ignored-ne (raised (activity_error m)) r n = n
  ignored-ne out_of_fuel r n = n

  wait_for_update-Ends : (n : ℕ) → Ends (wait_for_update w n)
  unfolding wait_for_update
  wait_for_update-Ends n = record {
    ends = λ r.
        let (o, r') = wait_condition signal (λ b. ltb n b.projection_update_count) r in
        ignored-ne o r' ((wait-Ends (λ b. ltb n b.projection_update_count)).ends r);
  }

  wait_round-Ends : Ends (wait_round w)
  unfolding wait_round
  wait_round-Ends = search (ends_rules, wait_for_update-Ends) depth 16

  -- Rounds enough for the seconds that are left.
  settle-Ends :
      (fuel : ℕ) (c : BillingConfig) (elapsed : ℕ)
      → suc c.wait_timeout_seconds - elapsed < fuel
      → Ends (settle w fuel c elapsed)
  unfolding settle
  settle-Ends zero c elapsed h = absurd (omega arith)
  settle-Ends (suc fuel) c elapsed h = record {
    ends = λ r.
        if_ends (leb elapsed c.wait_timeout_seconds) _ _
          (λ b.
            (bind-Ends _ _ load-Ends (λ ready. if-Ends ready _ _ (pure-Ends true) (
                bind-Ends _ _ wait_round-Ends
                  (λ _. settle-Ends fuel c (elapsed + wait_seconds c) (ground arith))))).ends
              r)
          (λ _ e. cc);
  }

  finalize-Ends : (c : BillingConfig) (ready : Bool) → Ends (finalize w c ready)
  unfolding finalize
  finalize-Ends c ready = search ends_rules depth 20

  attempt-Ends :
      (fuel : ℕ) (c : BillingConfig) → suc c.wait_timeout_seconds < fuel → Ends (attempt w fuel c)
  unfolding attempt
  attempt-Ends fuel c h =
      bind-Ends _ _ (wait-Ends (λ b. b.call_ended))
        (λ _. bind-Ends _ _ (settle-Ends fuel c 0 (omega arith)) (λ ready. finalize-Ends c ready))

  handled-IsReturned :
      (o : Outcome (Unit {0})) (r : BillingRun)
      → o ≢ out_of_fuel
      → IsReturned (continue (handle_error w o r).0 (λ _. gets (λ b. b)) (handle_error w o r).1).0
  unfolding gets modify pure
  handled-IsReturned (returned a) r n = tt
  handled-IsReturned (raised e) r n = tt
  handled-IsReturned out_of_fuel r n = absurd (n refl)

  -- With two rounds more than the longest wait has seconds, the workflow returns its status: no
  -- failure of an activity and no timeout leaves it, and it does not loop on.
  pub run_workflow-IsReturned :
      (c : BillingConfig) (fuel : ℕ) (call_ended : Bool)
      → suc c.wait_timeout_seconds < fuel
      → IsReturned (run_workflow w fuel c (start w (init call_ended))).0
  unfolding run_workflow ◌>>=◌
  run_workflow-IsReturned c fuel call_ended h =
      let r = start w (init call_ended) in
      let (o, r') = attempt w fuel c r in handled-IsReturned o r' ((attempt-Ends fuel c h).ends r)

-- ===== src/Worker/Action/Stable.antt =====
-- What keeps true in the parts of a durable action that do not ask the tool to cancel.
use voice_mesh.Prelude.{
  bit, bit_small, ℕ, suc, length, ◌+◌, ◌*◌, ◌≤◌, ◌≡◌, refl, ap, Bool, Option, none, some, List, [],
  ◌∷◌, arith,
}
use voice_mesh.Prelude.Traces.{run}
use voice_mesh.Worker.Flow.{
  timeout_error, activity_error, Outcome, returned, raised, out_of_fuel, World, head_signals,
  modify, execute, deliver, wait_condition,
}
use voice_mesh.Worker.Flow.Rules.{Keeps, bind-Keeps, if-Keeps, if_kept, pure-Keeps, gets-Keeps}
use voice_mesh.Worker.Action.{
  maximum_attempts, DurableActionState, EventType, ToolConfig, Payload, DurableAction, Signal,
  cancel_signal, status_signal, Activity, persist_tool_state, emit_tool_event,
  cancel_external_action, create_external_action, get_external_action_status, signal, ActionRun,
  transition, cancel_outcome, handle_error, wait_for_news, take_status, look_up, stirred,
  ignore_timeout,
}

-- How often the activity that asks the tool to cancel was started.
abbrev pub cancels : List Activity → ℕ
cancels [] = 0
cancels (cancel_external_action i reason ∷ cs) = suc (cancels cs)
cancels (_ ∷ cs) = cancels cs

-- How often Temporal tried it, where the k-th activity of the run was tried `tries k` times.
abbrev pub cancel_tries : (ℕ → ℕ) → List Activity → ℕ
cancel_tries tries [] = 0
cancel_tries tries (cancel_external_action i reason ∷ cs) =
    tries (length cs) + cancel_tries tries cs
cancel_tries tries (_ ∷ cs) = cancel_tries tries cs

pub cancel_tries_bound :
    (tries : ℕ → ℕ) (cs : List Activity)
    → ((k : ℕ) → tries k ≤ maximum_attempts)
    → cancel_tries tries cs ≤ maximum_attempts * cancels cs
cancel_tries_bound tries [] h = omega arith
cancel_tries_bound tries (persist_tool_state s ∷ cs) h = cancel_tries_bound tries cs h
cancel_tries_bound tries (emit_tool_event s e ∷ cs) h = cancel_tries_bound tries cs h
cancel_tries_bound tries (create_external_action ∷ cs) h = cancel_tries_bound tries cs h
cancel_tries_bound tries (get_external_action_status i ∷ cs) h = cancel_tries_bound tries cs h
cancel_tries_bound tries (cancel_external_action i reason ∷ cs) h =
    omega (arith, h (length cs), cancel_tries_bound tries cs h)

-- No cancellation so far; at most one, and none without a request; and a request without one.
abbrev pub IsCalm : ActionRun → Type 0
IsCalm r = cancels r.calls ≡ 0

abbrev pub IsFine : ActionRun → Type 0
IsFine r = cancels r.calls ≤ bit r.fields.is_cancel_requested

abbrev pub IsWarned : ActionRun → Type 0
IsWarned r = (cancels r.calls ≡ 0) × (bit r.fields.is_cancel_requested ≡ 1)

pub requested-signals :
    (s : DurableAction) (es : List Signal)
    → bit s.is_cancel_requested ≤ bit (run signal s es).is_cancel_requested
requested-signals s [] = omega arith
requested-signals s (cancel_signal reason ∷ es) =
    let h = requested-signals (signal s (cancel_signal reason)) es in
    omega (arith, h, bit_small s.is_cancel_requested)
requested-signals s (status_signal p ∷ es) = requested-signals (signal s (status_signal p)) es

cancels-cons :
    (a : Activity) (cs : List Activity) → cancels (a ∷ []) ≡ 0 → cancels (a ∷ cs) ≡ cancels cs
cancels-cons (persist_tool_state s) cs h = refl
cancels-cons (emit_tool_event s e) cs h = refl
cancels-cons create_external_action cs h = refl
cancels-cons (get_external_action_status i) cs h = refl
cancels-cons (cancel_external_action i reason) cs h = cc

-- What the rules below need of a predicate: it looks at the cancellations and the flag only, and a
-- request that comes does not break it.
pub record IsStable (I : ActionRun → Type 0) : Type 0 where
  stable :
      (r s : ActionRun)
      → cancels s.calls ≡ cancels r.calls
      → bit r.fields.is_cancel_requested ≤ bit s.fields.is_cancel_requested
      → I r
      → I s

pub IsCalm-IsStable : IsStable IsCalm
IsCalm-IsStable = record { stable = λ r s c f h. omega (arith, c, h) }

pub IsFine-IsStable : IsStable IsFine
IsFine-IsStable = record { stable = λ r s c f h. omega (arith, c, f, h) }

pub IsWarned-IsStable : IsStable IsWarned
IsWarned-IsStable = record {
  stable = λ r s c f h.
      (omega (arith, c, h.0), omega (arith, f, h.1, bit_small s.fields.is_cancel_requested));
}

module _ (w : World Signal Activity Payload) (I : ActionRun → Type 0) (i : IsStable I) where
  -- An activity that is no cancellation.
  pub execute-Keeps : (a : Activity) → cancels (a ∷ []) ≡ 0 → Keeps I (execute w signal a)
  unfolding execute deliver
  execute-Keeps a h = record {
    kept = λ r k.
        i.stable r (execute w signal a r).1 (cancels-cons a r.calls h)
          (requested-signals r.fields (head_signals r.coming)) k;
  }

  modify-Keeps :
      (f : DurableAction → DurableAction)
      → ((s : DurableAction) → (f s).is_cancel_requested ≡ s.is_cancel_requested)
      → Keeps I (modify f)
  unfolding modify
  modify-Keeps f h = record {
    kept = λ r k. i.stable r (modify f r).1 refl (omega (arith, ap bit (h r.fields))) k;
  }

  pub transition-Keeps : (st : DurableActionState) (e : EventType) → Keeps I (transition w st e)
  unfolding transition
  transition-Keeps st e = bind-Keeps I _ _ (modify-Keeps _ (λ s. refl)) (λ _.
      bind-Keeps I _ _ (gets-Keeps I _) (λ s.
        bind-Keeps I _ _ (execute-Keeps (persist_tool_state s) refl) (λ _.
          bind-Keeps I _ _ (execute-Keeps (emit_tool_event s e) refl) (λ _. pure-Keeps I tt))))

  pub cancel_outcome-Keeps : (p : Payload) → Keeps I (cancel_outcome w p)
  unfolding cancel_outcome
  cancel_outcome-Keeps p = if-Keeps I _ _ _ (transition-Keeps _ _) (
      if-Keeps I _ _ _ (bind-Keeps I _ _ (modify-Keeps _ (λ s. refl)) (λ _. transition-Keeps _ _))
        (transition-Keeps _ _))

  wait-Keeps : (test : DurableAction → Bool) → Keeps I (wait_condition signal test)
  unfolding wait_condition deliver
  wait-Keeps test = record {
    kept = λ r k.
        let k' =
          i.stable r (deliver signal r) refl (requested-signals r.fields (head_signals r.coming))
            k in
        if_kept I (test r.fields) (returned tt, r) _ k
          (if_kept I (test (deliver signal r).fields) (returned tt, deliver signal r)
            (raised timeout_error, deliver signal r) k' k');
  }

  ignored-Keeps : (o : Outcome (Unit {0})) → Keeps I (ignore_timeout w o)
  ignored-Keeps (returned a) = record { kept = λ r k. k }
  ignored-Keeps (raised timeout_error) = record { kept = λ r k. k }
  ignored-Keeps (raised (activity_error m)) = record { kept = λ r k. k }
  ignored-Keeps out_of_fuel = record { kept = λ r k. k }

  pub wait_for_news-Keeps : Keeps I (wait_for_news w)
  unfolding wait_for_news
  wait_for_news-Keeps = record {
    kept = λ r k.
        let (o, r') = wait_condition signal stirred r in
        (ignored-Keeps o).kept r' ((wait-Keeps stirred).kept r k);
  }

  look_up-Keeps : (b : Bool) (p : Option Payload) → Keeps I (look_up w b p)
  unfolding look_up
  look_up-Keeps b (some p) = pure-Keeps I _
  look_up-Keeps b none =
      if-Keeps I _ _ _
        (bind-Keeps I _ _ (gets-Keeps I _) (λ s.
          bind-Keeps I _ _ (execute-Keeps (get_external_action_status s.external_request_id) refl)
            (λ p. pure-Keeps I _)))
        (pure-Keeps I _)

  pub take_status-Keeps : (c : ToolConfig) → Keeps I (take_status w c)
  unfolding take_status
  take_status-Keeps c =
      bind-Keeps I _ _ (gets-Keeps I _)
        (λ s. bind-Keeps I _ _ (modify-Keeps _ (λ s. refl)) (λ _. look_up-Keeps c.has_status _))

  pub handled-Keeps : (o : Outcome (Unit {0})) → Keeps I (handle_error w o)
  handled-Keeps (returned a) = pure-Keeps I tt
  handled-Keeps (raised timeout_error) =
      bind-Keeps I _ _ (modify-Keeps _ (λ s. refl)) (λ _. transition-Keeps _ _)
  handled-Keeps (raised (activity_error m)) =
      bind-Keeps I _ _ (modify-Keeps _ (λ s. refl)) (λ _. transition-Keeps _ _)
  handled-Keeps out_of_fuel = record { kept = λ r k. k }

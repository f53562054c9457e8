-- ===== src/Worker/Flow.antt =====
-- Workflow code between its awaits. Temporal itself is a parameter: a `World` says which signals are
-- handled during each await, and how each activity ends once its retries are over.
pub mod Rules
use voice_mesh.Prelude.{ℕ, suc, String, Bool, List, [], ◌∷◌, if◌then◌else◌}
use voice_mesh.Prelude.Traces.{run}

-- An activity returns a reply, or its ActivityError reaches the workflow.
pub data Answer (Rep : Type 0) : Type 0 where
  reply : Rep → Answer Rep
  failure : String → Answer Rep

pub data Error : Type 0 where
  timeout_error : Error
  activity_error : String → Error

-- `out_of_fuel` is no outcome of the code: the loops' bound on their rounds was too small.
pub data Outcome (A : Type 0) : Type 0 where
  returned : A → Outcome A
  raised : Error → Outcome A
  out_of_fuel : Outcome A

pub record World (Sig Act Rep : Type 0) : Type 0 where
  -- The signals handled during the first await, the second and so on; later awaits see none.
  pub script : List (List Sig)
  -- How the activity started at a given await ends.
  pub answer : ℕ → Act → Answer Rep

-- The workflow's fields, the signals still to come, and the activities so far, the latest first.
pub record Run (S Sig Act : Type 0) : Type 0 where
  pub tick : ℕ
  pub coming : List (List Sig)
  pub fields : S
  pub calls : List Act

abbrev pub Flow : Type 0 → Type 0 → Type 0 → Type 0 → Type 0
Flow S Sig Act A = Run S Sig Act → Outcome A × Run S Sig Act

-- The signals of the next await, and those of the awaits after it.
abbrev pub head_signals : {Sig : Type 0} → List (List Sig) → List Sig
head_signals [] = []
head_signals (s ∷ ss) = s

abbrev pub tail_signals : {Sig : Type 0} → List (List Sig) → List (List Sig)
tail_signals [] = []
tail_signals (s ∷ ss) = ss

abbrev pub outcome_of : {Rep : Type 0} → Answer Rep → Outcome Rep
outcome_of (reply a) = returned a
outcome_of (failure m) = raised (activity_error m)

module _ {S Sig Act : Type 0} where
  unfoldable pub pure : {A : Type 0} → A → Flow S Sig Act A
  pure a r = (returned a, r)

  unfoldable pub gets : {A : Type 0} → (S → A) → Flow S Sig Act A
  gets f r = (returned (f r.fields), r)

  unfoldable pub modify : (S → S) → Flow S Sig Act (Unit {0})
  modify f r = (returned tt, record r { fields = f r.fields })

  module _ {A B : Type 0} where
    abbrev pub continue : Outcome A → (A → Flow S Sig Act B) → Flow S Sig Act B
    continue (returned a) f r = f a r
    continue (raised e) f r = (raised e, r)
    continue out_of_fuel f r = (out_of_fuel, r)

    infixl 5 ◌>>=◌
    unfoldable pub ◌>>=◌ : Flow S Sig Act A → (A → Flow S Sig Act B) → Flow S Sig Act B
    unfolding pure gets modify
    ◌>>=◌ m f r = let (o, r') = m r in continue o f r'

  infixl 5 ◌>>◌
  abbrev pub ◌>>◌ : {A B : Type 0} → Flow S Sig Act A → Flow S Sig Act B → Flow S Sig Act B
  m >> k = m >>= λ _. k

  -- The signals of one await are handled in their order.
  unfoldable pub deliver : (S → Sig → S) → Run S Sig Act → Run S Sig Act
  deliver handle r = record r {
    tick = suc r.tick;
    coming = tail_signals r.coming;
    fields = run handle r.fields (head_signals r.coming);
  }

  -- `workflow.execute_activity`
  unfoldable pub execute :
      {Rep : Type 0} → World Sig Act Rep → (S → Sig → S) → Act → Flow S Sig Act Rep
  unfolding deliver
  execute w handle a r =
      (outcome_of (w.answer r.tick a), record (deliver handle r) { calls = a ∷ r.calls })

  -- `workflow.wait_condition` with a timeout: the wait ends when the condition holds, or the signals
  -- that came in time did not make it hold.
  unfoldable pub wait_condition : (S → Sig → S) → (S → Bool) → Flow S Sig Act (Unit {0})
  unfolding deliver
  wait_condition handle test r =
      if test r.fields
      then (returned tt, r)
      else if test (deliver handle r).fields
      then (returned tt, deliver handle r)
      else (raised timeout_error, deliver handle r)

  -- A timer: `workflow.sleep`, noted among the calls.
  unfoldable pub sleep : (S → Sig → S) → Act → Flow S Sig Act (Unit {0})
  unfolding deliver
  sleep handle a r = (returned tt, record (deliver handle r) { calls = a ∷ r.calls })

  unfoldable pub start : {Rep : Type 0} → World Sig Act Rep → S → Run S Sig Act
  start w s = record { tick = 0; coming = w.script; fields = s; calls = [] }

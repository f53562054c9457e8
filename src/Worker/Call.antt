-- ===== src/Worker/Call.antt =====
-- apps/worker/workflows.py: CallWorkflow. The payload of a signal is a parameter, with the event type
-- that it may hold.
pub mod Steady
pub mod Total
pub mod Persisted
pub mod LastEvent
mod Tests
use voice_mesh.Prelude.{
  ℕ, zero, suc, String, Bool, true, false, ◌||◌, Option, none, some, List, [], ◌∷◌, ◌++◌,
  if◌then◌else◌, is_text, truthy,
}
use voice_mesh.Worker.Flow.{
  Answer, Error, timeout_error, activity_error, Outcome, returned, raised, out_of_fuel, World, Run,
  Flow, ◌>>=◌, ◌>>◌, pure, gets, modify, execute, wait_condition, start,
}

pub data CallState : Type 0 where
  pending call_started in_progress backpressure_active provider_degraded : CallState
  fallback_selected call_failed call_completed recovery_required done : CallState

pub data Kind : Type 0 where
  started pipeline provider_failed completed failed : Kind

-- A signal appends its kind and its payload to `events`.
pub record WorkflowEvent (P : Type 0) : Type 0 where
  pub kind : Kind
  pub payload : P

pub record CallWorkflow (P : Type 0) : Type 0 where
  pub state : CallState
  pub call_id : String
  pub events : List (WorkflowEvent P)
  pub summary : String
  pub is_done : Bool

-- The data of `mark_call_failed`: what the signal reported, or an error text.
pub data Failure (P : Type 0) : Type 0 where
  reported : P → Failure P
  with_error : String → Failure P

pub data Activity (P : Type 0) : Type 0 where
  persist_call_state : String → CallState → Activity P
  select_fallback_provider : String → P → Activity P
  summarize_call : String → P → Activity P
  mark_call_completed : String → String → Activity P
  mark_call_failed : String → Failure P → Activity P
  emit_recovery_event : String → String → Activity P

-- The parts of the activities' replies that the workflow reads.
pub record Reply : Type 0 where
  pub fallback_provider : Option String
  pub summary : String

pub record Returned : Type 0 where
  pub call_id : String
  pub state : CallState
  pub summary : String

abbrev pub CallRun : Type 0 → Type 0
CallRun P = Run (CallWorkflow P) (WorkflowEvent P) (Activity P)

abbrev pub Action : Type 0 → Type 0 → Type 0
Action P A = Flow (CallWorkflow P) (WorkflowEvent P) (Activity P) A

module _ {P : Type 0} where
  unfoldable pub init : String → CallWorkflow P
  init call_id = record {
    state = pending;
    call_id = call_id;
    events = [];
    summary = "";
    is_done = false;
  }

  abbrev pub signal : CallWorkflow P → WorkflowEvent P → CallWorkflow P
  signal s e = record s { events = s.events ++ e ∷ [] }

  abbrev set_state : CallState → Action P (Unit {0})
  set_state state = modify (λ s. record s { state = state })

  -- `bool(self.events) or self.done`
  abbrev pub awake : CallWorkflow P → Bool
  awake s = elim s.events [ [] ↦ s.is_done | _ ∷ _ ↦ true ]

module _ {P : Type 0} (w : World (WorkflowEvent P) (Activity P) Reply) where
  abbrev activity : Activity P → Action P Reply
  activity = execute w signal

  unfoldable pub persist : Action P (Unit {0})
  persist = do s ← gets (λ s. s); activity (persist_call_state s.call_id s.state); pure tt

  -- `_apply`; `event_type` reads the payload.
  unfoldable pub apply : (P → Option String) → Kind → P → Action P (Unit {0})
  unfolding persist
  apply event_type started payload = do
    set_state call_started
    persist
    set_state in_progress
    persist
  apply event_type pipeline payload = do
    set_state (
        if is_text "pipeline.corked" (event_type payload) then backpressure_active else in_progress)
    persist
  apply event_type provider_failed payload = do
    set_state provider_degraded
    persist
    s ← gets (λ s. s)
    fallback ← activity (select_fallback_provider s.call_id payload)
    set_state (if truthy fallback.fallback_provider then fallback_selected else recovery_required)
    persist
  apply event_type completed payload = do
    set_state call_completed
    persist
    s ← gets (λ s. s)
    summarized ← activity (summarize_call s.call_id payload)
    modify (λ s. record s { summary = summarized.summary })
    activity (mark_call_completed s.call_id summarized.summary)
    modify (λ s. record s { state = done; is_done = true })
    persist
  apply event_type failed payload = do
    set_state call_failed
    persist
    s ← gets (λ s. s)
    activity (mark_call_failed s.call_id (reported payload))
    modify (λ s. record s { state = done; is_done = true })
    persist

  -- The handler of `except TimeoutError`.
  unfoldable pub recover : Action P (Unit {0})
  unfolding persist
  recover = do
    set_state recovery_required
    persist
    s ← gets (λ s. s)
    activity (emit_recovery_event s.call_id "call lifecycle timeout")
    set_state call_failed
    persist
    activity (mark_call_failed s.call_id (with_error "workflow timeout"))
    modify (λ s. record s { state = done; is_done = true })
    persist

  abbrev on_timeout : Outcome (Unit {0}) → Action P (Unit {0})
  on_timeout (raised timeout_error) r = recover r
  on_timeout o r = (o, r)

module _ {P : Type 0} (event_type : P → Option String)
    (w : World (WorkflowEvent P) (Activity P) Reply) where
  -- `while self.events: await self._apply(self.events.pop(0))`, for at most `fuel` events.
  drain_events : ℕ → List (WorkflowEvent P) → Action P (Unit {0})
  drain_events fuel [] r = (returned tt, r)
  drain_events zero (e ∷ es) r = (out_of_fuel, r)
  drain_events (suc fuel) (e ∷ es) r =
      (do
        modify (λ s. record s { events = es })
        apply w event_type e.kind e.payload
        s ← gets (λ s. s)
        drain_events fuel s.events)
        r

  unfoldable pub drain : ℕ → Action P (Unit {0})
  unfolding drain_events
  drain fuel r = drain_events fuel r.fields.events r

  -- `while not self.done`, for at most `rounds` rounds.
  unfoldable pub serve : ℕ → ℕ → Action P (Unit {0})
  serve zero fuel r = (out_of_fuel, r)
  serve (suc rounds) fuel r =
      if r.fields.is_done
      then (returned tt, r)
      else (do wait_condition signal awake; drain fuel; serve rounds fuel) r

  abbrev try_serve : ℕ → ℕ → Action P (Unit {0})
  try_serve rounds fuel r = let (o, r') = serve rounds fuel r in on_timeout w o r'

  unfoldable pub run_workflow : ℕ → ℕ → Action P Returned
  run_workflow rounds fuel = do
    persist w
    try_serve rounds fuel
    gets (λ s. record { call_id = s.call_id; state = s.state; summary = s.summary })

-- ===== src/Worker/Action.antt =====
-- apps/worker/durable_workflows.py: DurableActionWorkflow, with the inputs of apps/api/tools/models.py.
-- What a payload carries beside the fields below is the same for all of a run, and left out.
pub mod Terminal
pub mod Total
pub mod Stable
pub mod Cancelling
mod Tests
use voice_mesh.Prelude.{
  ℕ, zero, suc, ◌+◌, String, Bool, true, false, not, ◌&&◌, ◌||◌, Option, none, some, List, [], ◌∷◌,
  ltb, if◌then◌else◌, is_some, or_text, str_eq,
}
use voice_mesh.Prelude.Lower.{lower_or_empty, is_word, among}
use voice_mesh.Worker.Flow.{
  Answer, Error, timeout_error, activity_error, Outcome, returned, raised, out_of_fuel, World, Run,
  Flow, ◌>>=◌, ◌>>◌, pure, gets, modify, execute, wait_condition, start,
}

pub data DurableActionState : Type 0 where
  requested create_in_flight active cancel_requested cancel_in_flight cancelled : DurableActionState
  completed cannot_cancel failed timed_out : DurableActionState

pub data EventType : Type 0 where
  action_requested create_started accepted cancel_started : EventType
  action_cancelled action_cannot_cancel action_completed action_failed action_timed_out : EventType

-- The parts of DurableToolConfig that decide what the workflow does.
pub record ToolConfig : Type 0 where
  pub has_cancel : Bool
  pub has_status : Bool
  pub terminal_states : List String
  pub poll_interval_seconds : ℕ
  pub max_runtime_seconds : ℕ

-- A reply or a status event: the values under the keys that are read, and whether the dict has any key.
pub record Payload : Type 0 where
  pub is_present : Bool
  pub external_request_id : Option String
  pub status : Option String
  pub message : Option String

pub record DurableAction : Type 0 where
  pub state : DurableActionState
  pub external_request_id : Option String
  pub message : Option String
  pub is_cancel_requested : Bool
  pub cancel_reason : Option String
  pub last_error : Option String
  pub external_status : Option Payload

pub data Signal : Type 0 where
  cancel_signal : Option String → Signal
  status_signal : Payload → Signal

-- The activities; the first two carry the workflow's fields.
pub data Activity : Type 0 where
  persist_tool_state : DurableAction → Activity
  emit_tool_event : DurableAction → EventType → Activity
  create_external_action : Activity
  get_external_action_status : Option String → Activity
  cancel_external_action : Option String → Option String → Activity

-- `_retry_policy`: Temporal tries an activity of the workflow at most so often.
abbrev pub maximum_attempts : ℕ
maximum_attempts = 5

unfoldable pub init : DurableAction
init = record {
  state = requested;
  external_request_id = none;
  message = none;
  is_cancel_requested = false;
  cancel_reason = none;
  last_error = none;
  external_status = none;
}

-- `cancel_requested_signal` and `external_status_updated`
abbrev pub signal : DurableAction → Signal → DurableAction
signal s (cancel_signal reason) = record s {
  is_cancel_requested = true;
  cancel_reason = some (or_text reason "requested_by_user");
}
signal s (status_signal event) = record s { external_status = some event }

abbrev pub Action : Type 0 → Type 0
Action A = Flow DurableAction Signal Activity A

abbrev pub ActionRun : Type 0
ActionRun = Run DurableAction Signal Activity

-- `new or old`, for an optional text.
abbrev or_old : Option String → Option String → Option String
or_old none old = old
or_old (some s) old = if str_eq s "" then old else some s

-- A payload that is not None and not empty.
abbrev usable : Option Payload → Option Payload
usable none = none
usable (some p) = if p.is_present then some p else none

-- `self.cancel_requested or self.external_status is not None`
abbrev pub stirred : DurableAction → Bool
stirred s = s.is_cancel_requested || is_some s.external_status

-- What a status asks for, in the order of the tests of `_poll_until_terminal`.
unfoldable pub verdict : ToolConfig → List ℕ → Option (DurableActionState × EventType)
verdict config status =
    if is_word status "cancelled"
    then some (cancelled, action_cancelled)
    else if is_word status "cannot_cancel"
    then some (cannot_cancel, action_cannot_cancel)
    else if is_word status "failed" || is_word status "rejected"
    then some (failed, action_failed)
    else if among status config.terminal_states
    then some (completed, action_completed)
    else none

module _ (w : World Signal Activity Payload) where
  abbrev activity : Activity → Action Payload
  activity = execute w signal

  -- `_transition`
  unfoldable pub transition : DurableActionState → EventType → Action (Unit {0})
  transition state event_type = do
    modify (λ s. record s { state = state })
    s ← gets (λ s. s)
    activity (persist_tool_state s)
    activity (emit_tool_event s event_type)
    pure tt

  -- The end of `_cancel_after_create`, by the status of the reply.
  unfoldable pub cancel_outcome : Payload → Action (Unit {0})
  cancel_outcome result =
      if is_word (lower_or_empty result.status) "cannot_cancel"
      then transition cannot_cancel action_cannot_cancel
      else if is_word (lower_or_empty result.status) "failed"
      then (do
        modify (λ s. record s { last_error = result.message })
        transition failed action_failed)
      else transition cancelled action_cancelled

  unfoldable pub cancel_after_create : ToolConfig → Action (Unit {0})
  cancel_after_create config =
      if not config.has_cancel then transition cannot_cancel action_cannot_cancel else do
        transition cancel_in_flight cancel_started
        s ← gets (λ s. s)
        result ← activity (cancel_external_action s.external_request_id s.cancel_reason)
        modify (λ s. record s { message = or_old result.message s.message })
        cancel_outcome result

  -- `wait_condition`, with its TimeoutError passed over.
  abbrev ignore_timeout : Outcome (Unit {0}) → Action (Unit {0})
  ignore_timeout (raised timeout_error) r = (returned tt, r)
  ignore_timeout o r = (o, r)

  unfoldable pub wait_for_news : Action (Unit {0})
  wait_for_news r = let (o, r') = wait_condition signal stirred r in ignore_timeout o r'

  -- The event that was signalled, or else the status that the tool tells.
  look_up : Bool → Option Payload → Action (Option Payload)
  look_up has_status (some p) = pure (some p)
  look_up has_status none =
      if has_status
      then (do
        s ← gets (λ s. s)
        p ← activity (get_external_action_status s.external_request_id)
        pure (usable (some p)))
      else pure none

  unfoldable pub take_status : ToolConfig → Action (Option Payload)
  unfolding look_up
  take_status config = do
    s ← gets (λ s. s)
    modify (λ s. record s { external_status = none })
    look_up config.has_status (usable s.external_status)

  abbrev conclude : Option (DurableActionState × EventType) → Action (Unit {0}) → Action (Unit {0})
  conclude none rest = rest
  conclude (some (state, event_type)) rest = transition state event_type

  -- The rest of a round, on the status that was found.
  unfoldable pub judge : ToolConfig → Option Payload → Action (Unit {0}) → Action (Unit {0})
  judge config none rest = rest
  judge config (some p) rest = do
    modify (λ s. record s { message = or_old p.message s.message })
    conclude (verdict config (lower_or_empty p.status)) rest

  -- `_poll_until_terminal` from `elapsed` seconds on, for at most `fuel` rounds.
  unfoldable pub poll : ℕ → ToolConfig → ℕ → Action (Unit {0})
  poll zero config elapsed r = (out_of_fuel, r)
  poll (suc fuel) config elapsed r =
      let rest = poll fuel config (elapsed + config.poll_interval_seconds) in
      let round = (do wait_for_news; p ← take_status config; judge config p rest) in
      if not (ltb elapsed config.max_runtime_seconds)
      then transition timed_out action_timed_out r
      else if r.fields.is_cancel_requested
      then cancel_after_create config r
      else round r

  after_create : ℕ → ToolConfig → Bool → Action (Unit {0})
  after_create fuel config true = cancel_after_create config
  after_create fuel config false = do transition active accepted; poll fuel config 0

  -- The body of the `try` in `run`.
  unfoldable pub attempt : ℕ → ToolConfig → Action (Unit {0})
  unfolding after_create
  attempt fuel config = do
    transition create_in_flight create_started
    created ← activity create_external_action
    modify (λ s. record s {
      external_request_id = created.external_request_id;
      message = created.message;
    })
    s ← gets (λ s. s)
    after_create fuel config s.is_cancel_requested

  abbrev error_text : Error → String
  error_text timeout_error = ""
  error_text (activity_error m) = m

  -- The two handlers of `run`.
  abbrev pub handle_error : Outcome (Unit {0}) → Action (Unit {0})
  handle_error (raised timeout_error) = do
    modify (λ s. record s { last_error = some (error_text timeout_error) })
    transition timed_out action_timed_out
  handle_error (raised (activity_error m)) = do
    modify (λ s. record s { last_error = some m })
    transition failed action_failed
  handle_error (returned a) = pure tt
  handle_error out_of_fuel = λ r. (out_of_fuel, r)

  abbrev pub guarded : ℕ → ToolConfig → Action (Unit {0})
  guarded fuel config r = let (o, r') = attempt fuel config r in handle_error o r'

  unfoldable pub run_workflow : ℕ → ToolConfig → Action DurableAction
  run_workflow fuel config = do
    transition requested action_requested
    guarded fuel config
    gets (λ s. s)

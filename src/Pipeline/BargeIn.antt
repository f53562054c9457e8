-- ===== src/Pipeline/BargeIn.antt =====
-- apps/api/pipeline/barge_in.py: BargeInCoordinator, the interruption state of one call. A method
-- returns the new coordinator beside its result; the time is an argument, in milliseconds.
pub mod Cancelling
pub mod Effects
pub mod Duplicates
pub mod Candidates
pub mod Classify
mod Tests
use Prim.Native.String.{◌++◌}
use voice_mesh.Prelude.{
  ℕ, ◌+◌, String, Bool, true, false, not, ◌||◌, Option, none, some, List, [], ltb, if◌then◌else◌,
  is_text, truthy, or_text, has_text, add_text,
}
use voice_mesh.Prelude.Int.{ℤ, clamp_zero}
use voice_mesh.Prelude.Dict.{Dict, insert}

pub data BargeInState : Type 0 where
  idle assistant_playing candidate confirmed rejected cancelling cancelled resolving : BargeInState

pub data BargeInSemantic : Type 0 where
  correction cancellation_request additive_context backchannel : BargeInSemantic
  clarification_or_repeat noise_or_echo unknown_interruption : BargeInSemantic

pub record PlaybackCursor : Type 0 where
  pub turn_id : String
  pub response_id : String
  pub last_played_sequence : ℕ
  pub played_audio_ms : ℕ
  pub updated_at_monotonic : ℕ

pub record BargeInCandidate : Type 0 where
  pub barge_in_id : String
  pub call_id : String
  pub turn_id : String
  pub response_id : String
  pub detected_at_monotonic_ms : ℕ
  pub last_played_sequence : ℤ
  pub played_audio_ms : ℤ
  pub source : String

pub record BargeInTransition : Type 0 where
  pub state : BargeInState
  pub reason_code : String
  pub barge_in_id : Option String
  pub turn_id : Option String
  pub response_id : Option String
  pub duplicate : Bool

pub record BargeInCoordinator : Type 0 where
  pub call_id : String
  pub candidate_retention_ms : ℕ
  pub state : BargeInState
  pub active_turn_id : Option String
  pub active_response_id : Option String
  pub current_candidate : Option BargeInCandidate
  pub processed_candidate_ids : List String
  pub playback_cursor : Option PlaybackCursor
  pub interrupted_responses : Dict PlaybackCursor
  pub last_semantic : Option BargeInSemantic

unfoldable pub init : String → ℕ → BargeInCoordinator
init call_id candidate_retention_ms = record {
  call_id = call_id;
  candidate_retention_ms = candidate_retention_ms;
  state = idle;
  active_turn_id = none;
  active_response_id = none;
  current_candidate = none;
  processed_candidate_ids = [];
  playback_cursor = none;
  interrupted_responses = [];
  last_semantic = none;
}

-- What a method that may return None comes to.
abbrev pub Reply : Type 0
Reply = BargeInCoordinator × Option BargeInTransition

abbrev keeps_state : BargeInState → Bool
keeps_state candidate = true
keeps_state confirmed = true
keeps_state _ = false

unfoldable pub set_assistant_playing : String → String → BargeInCoordinator → BargeInCoordinator
set_assistant_playing turn_id response_id c = record c {
  active_turn_id = some turn_id;
  active_response_id = some response_id;
  state = if keeps_state c.state then c.state else assistant_playing;
}

-- `self.current_candidate and self.current_candidate.response_id == response_id`
abbrev candidate_of : String → Option BargeInCandidate → Bool
candidate_of response_id none = false
candidate_of response_id (some x) = is_text response_id (some x.response_id)

abbrev finished_state : BargeInState → BargeInState
finished_state assistant_playing = idle
finished_state s = s

unfoldable pub assistant_finished : String → BargeInCoordinator → Reply
assistant_finished response_id c =
    if not (is_text response_id c.active_response_id)
    then (c, none)
    else if candidate_of response_id c.current_candidate
    then (c, none)
    else (
      record c {
        active_turn_id = none;
        active_response_id = none;
        playback_cursor = none;
        state = finished_state c.state;
      },
      some (record {
        state = finished_state c.state;
        reason_code = "playback_completed";
        barge_in_id = none;
        turn_id = none;
        response_id = some response_id;
        duplicate = false;
      }),
    )

unfoldable pub playback_progress :
    String → String → ℤ → ℤ → ℕ → BargeInCoordinator → BargeInCoordinator × PlaybackCursor
playback_progress turn_id response_id last_played_sequence played_audio_ms now c =
    let cursor : PlaybackCursor = record {
      turn_id = turn_id;
      response_id = response_id;
      last_played_sequence = clamp_zero last_played_sequence;
      played_audio_ms = clamp_zero played_audio_ms;
      updated_at_monotonic = now;
    } in
    if is_text response_id c.active_response_id
    then (record c { playback_cursor = some cursor }, cursor)
    else (c, cursor)

-- The transition that most methods build from a candidate.
abbrev pub about : BargeInCandidate → BargeInState → String → Bool → Option BargeInTransition
about x state reason_code duplicate = some (record {
  state = state;
  reason_code = reason_code;
  barge_in_id = some x.barge_in_id;
  turn_id = some x.turn_id;
  response_id = some x.response_id;
  duplicate = duplicate;
})

unfoldable pub offer : BargeInCandidate → BargeInCoordinator → Reply
offer x c =
    if has_text x.barge_in_id c.processed_candidate_ids
    then (c, about x c.state "duplicate_candidate" true)
    else if not (is_text x.response_id c.active_response_id)
    then (
      record c { processed_candidate_ids = add_text x.barge_in_id c.processed_candidate_ids },
      about x c.state "stale_response" false,
    )
    else (
      record c { current_candidate = some x; state = candidate },
      about x candidate "candidate_detected" false,
    )

-- The candidate that the backend's own detection makes for a response.
unfoldable pub of_backend : String → String → String → ℕ → BargeInCandidate
of_backend call_id turn_id response_id now = record {
  barge_in_id = "backend-" ++ response_id;
  call_id = call_id;
  turn_id = turn_id;
  response_id = response_id;
  detected_at_monotonic_ms = now;
  last_played_sequence = ℤ.pos 0;
  played_audio_ms = ℤ.pos 0;
  source = "backend_vad";
}

unfoldable pub backend_candidate : String → String → ℕ → BargeInCoordinator → Reply
unfolding offer of_backend
backend_candidate turn_id response_id now c = offer (of_backend c.call_id turn_id response_id now) c

abbrev pub reject_found : Option BargeInCandidate → String → BargeInCoordinator → Reply
reject_found none reason_code c = (c, none)
reject_found (some x) reason_code c = (
  record c {
    processed_candidate_ids = add_text x.barge_in_id c.processed_candidate_ids;
    current_candidate = none;
    state = rejected;
  },
  about x rejected reason_code false,
)

unfoldable pub reject : String → BargeInCoordinator → Reply
reject reason_code c = reject_found c.current_candidate reason_code c

abbrev pub reject_expired_found : Option BargeInCandidate → ℕ → BargeInCoordinator → Reply
reject_expired_found none now c = (c, none)
reject_expired_found (some x) now c =
    if ltb now (x.detected_at_monotonic_ms + c.candidate_retention_ms)
    then (c, none)
    else reject_found c.current_candidate "candidate_timeout" c

-- `now - detected < retention` is written without the subtraction.
unfoldable pub reject_expired : ℕ → BargeInCoordinator → Reply
reject_expired now c = reject_expired_found c.current_candidate now c

-- The end of `confirm`, on its candidate.
confirm_with : BargeInCandidate → String → BargeInCoordinator → Reply
unfolding reject
confirm_with x reason_code c =
    if not (is_text x.response_id c.active_response_id) then reject "stale_response" c else (
      record c { current_candidate = some x; state = confirmed },
      about x confirmed reason_code false,
    )

confirm_found : Option BargeInCandidate → String → ℕ → BargeInCoordinator → Reply
unfolding confirm_with of_backend
confirm_found (some x) reason_code now c = confirm_with x reason_code c
confirm_found none reason_code now c =
    if not (truthy c.active_turn_id) || not (truthy c.active_response_id)
    then (c, none)
    else confirm_with
        (of_backend c.call_id (or_text c.active_turn_id "") (or_text c.active_response_id "") now)
        reason_code c

unfoldable pub confirm : String → ℕ → BargeInCoordinator → Reply
unfolding confirm_found
confirm reason_code now c = confirm_found c.current_candidate reason_code now c

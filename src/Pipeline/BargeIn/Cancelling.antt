-- ===== src/Pipeline/BargeIn/Cancelling.antt =====
-- apps/api/pipeline/barge_in.py: the cancellation of a response, and what follows it.
use voice_mesh.Prelude.{
  ℕ, String, false, not, Option, none, some, List, if◌then◌else◌, is_text, or_text, add_text,
}
use voice_mesh.Prelude.Dict.{insert}
use voice_mesh.Pipeline.BargeIn.{
  BargeInCandidate, BargeInCoordinator, BargeInSemantic, BargeInState, idle, confirmed, cancelling,
  cancelled, resolving, PlaybackCursor, Reply,
}

abbrev candidate_id : Option BargeInCandidate → Option String
candidate_id none = none
candidate_id (some x) = some x.barge_in_id

unfoldable pub begin_cancelling : String → BargeInCoordinator → Reply
begin_cancelling response_id c =
    if not (is_text response_id c.active_response_id) then (c, none) else (
      record c { state = cancelling },
      some (record {
        state = cancelling;
        reason_code = "cancel_started";
        barge_in_id = candidate_id c.current_candidate;
        turn_id = c.active_turn_id;
        response_id = some response_id;
        duplicate = false;
      }),
    )

-- The cursor of a response of which nothing was reported as played.
abbrev pub unplayed : String → String → ℕ → PlaybackCursor
unplayed turn_id response_id now = record {
  turn_id = turn_id;
  response_id = response_id;
  last_played_sequence = 0;
  played_audio_ms = 0;
  updated_at_monotonic = now;
}

-- `self.playback_cursor or PlaybackCursor(...)`
abbrev pub cursor_or : Option PlaybackCursor → PlaybackCursor → PlaybackCursor
cursor_or none d = d
cursor_or (some p) d = p

abbrev pub processed_with : Option BargeInCandidate → List String → List String
processed_with none ids = ids
processed_with (some x) ids = add_text x.barge_in_id ids

unfoldable pub finish_cancelled : String → ℕ → BargeInCoordinator → Reply
finish_cancelled response_id now c =
    let cursor =
      cursor_or c.playback_cursor (unplayed (or_text c.active_turn_id "unknown") response_id now) in
    if not (is_text response_id c.active_response_id) then (c, none) else (
      record c {
        interrupted_responses = insert response_id cursor c.interrupted_responses;
        processed_candidate_ids = processed_with c.current_candidate c.processed_candidate_ids;
        current_candidate = none;
        state = cancelled;
      },
      some (record {
        state = cancelled;
        reason_code = "cancelled";
        barge_in_id = none;
        turn_id = some cursor.turn_id;
        response_id = some response_id;
        duplicate = false;
      }),
    )

abbrev resolving_state : BargeInState → BargeInState
resolving_state confirmed = resolving
resolving_state cancelled = resolving
resolving_state s = s

unfoldable pub set_resolving : BargeInCoordinator → BargeInCoordinator
set_resolving c = record c { state = resolving_state c.state }

unfoldable pub resolved : BargeInSemantic → BargeInCoordinator → BargeInCoordinator
resolved semantic c = record c {
  last_semantic = some semantic;
  state = idle;
  active_turn_id = none;
  active_response_id = none;
  playback_cursor = none;
}

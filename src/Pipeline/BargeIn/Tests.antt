-- ===== src/Pipeline/BargeIn/Tests.antt =====
-- The coordinator's theorems, for an interruption of the response r1.
use voice_mesh.Prelude.{◌≡◌, refl, true, false, none, some, List, [], ◌∷◌, has_text, or_text}
use voice_mesh.Prelude.Int.{ℤ}
use voice_mesh.Prelude.Traces.{run}
use voice_mesh.Prelude.Dict.{lookup}
use voice_mesh.Pipeline.BargeIn
use voice_mesh.Pipeline.BargeIn.{
  BargeInCandidate, BargeInCoordinator, BargeInTransition, about, offer, reject, rejected,
  cancelled, assistant_playing, set_assistant_playing,
}
use voice_mesh.Pipeline.BargeIn.Cancelling.{finish_cancelled, cursor_or, unplayed}
use voice_mesh.Pipeline.BargeIn.Effects.{Op, step, next}
use voice_mesh.Pipeline.BargeIn.Duplicates.{settled_duplicate}
use voice_mesh.Pipeline.BargeIn.Candidates.{interruption_protocol}

abbrev offered : BargeInCandidate
offered = record {
  barge_in_id = "b1";
  call_id = "call-1";
  turn_id = "t1";
  response_id = "r1";
  detected_at_monotonic_ms = 100;
  last_played_sequence = ℤ.pos 3;
  played_audio_ms = ℤ.pos 60;
  source = "browser";
}

abbrev playing : BargeInCoordinator
playing = record {
  call_id = "call-1";
  candidate_retention_ms = 500;
  state = assistant_playing;
  active_turn_id = some "t1";
  active_response_id = some "r1";
  current_candidate = none;
  processed_candidate_ids = [];
  playback_cursor = none;
  interrupted_responses = [];
  last_semantic = none;
}

abbrev interrupted : BargeInCoordinator
interrupted = record playing { current_candidate = some offered; state = BargeIn.candidate }

abbrev later : List Op
later =
    Op.playing "t2" "r2"
    ∷ Op.offering offered
    ∷ Op.confirming "speech" 200
    ∷ Op.cancelling "r2"
    ∷ []

abbrev rejection : BargeInTransition
rejection = record {
  state = rejected;
  reason_code = "too_short";
  barge_in_id = some "b1";
  turn_id = some "t1";
  response_id = some "r1";
  duplicate = false;
}

step_rejects : (step interrupted (Op.rejecting "too_short")).1 ≡ some rejection
unfolding step reject
step_rejects = refl

settled_duplicate_example :
    (let d = run next (reject "too_short" interrupted).0 later in
      offer offered d ≡ (d, about offered d.state "duplicate_candidate" true))
    × (let d = run next (finish_cancelled "r1" 300 interrupted).0 later in
        offer offered d ≡ (d, about offered d.state "duplicate_candidate" true))
settled_duplicate_example =
    settled_duplicate offered "too_short" "r1" 300 interrupted later refl refl

interruption_protocol_example :
    let d =
      next
        (next
          (next (next playing (Op.offering offered)) (Op.confirming "speech" 1))
          (Op.cancelling "r1"))
        (Op.cancelled "r1" 2) in
    (d.state ≡ cancelled)
    × (d.current_candidate ≡ none)
    × (has_text "b1" d.processed_candidate_ids ≡ true)
    × (lookup "r1" d.interrupted_responses
        ≡ some (
            cursor_or playing.playback_cursor
              (unplayed (or_text playing.active_turn_id "unknown") "r1" 2)))
interruption_protocol_example =
    interruption_protocol offered "speech" "r1" 1 2 playing refl refl refl

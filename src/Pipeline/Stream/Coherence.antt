-- ===== src/Pipeline/Stream/Coherence.antt =====
-- What every section of a call keeps: one active response, and events numbered without a gap.
use voice_mesh.Prelude.{
  ℕ, suc, ◌≡◌, refl, String, Bool, Option, none, some, List, [], ◌∷◌, arith, length, add_text,
}
use voice_mesh.Prelude.Traces.{run, run_induction}
use voice_mesh.Events.Schemas.{EventType, transport_audio_sent}
use voice_mesh.Prelude.Int.{ℤ}
use voice_mesh.Pipeline.Queue.{InitResult}
use voice_mesh.Pipeline.Responses.{start_response, cancel_response, finish_response}
use voice_mesh.Pipeline.BargeIn.{BargeInSemantic, BargeInTransition, BargeInCandidate, offer}
use voice_mesh.Pipeline.BargeIn.Cancelling.{resolved}
use voice_mesh.Pipeline.TurnDetector.{TurnUpdate}
use voice_mesh.Pipeline.Stream.{
  Stream, Event, Details, plain, TextQueueItem, AudioQueueItem, audio_chunk, end_of_audio, emit,
  drop_stale_chunk, TurnStats,
}
use voice_mesh.Pipeline.Stream.Speaking.{
  with_queues, open_response, new_text_queue, new_audio_queue, complete_transport, begin_response,
  end_response, response_timeout, start_llm, first_token, take_token, put_text, put_audio,
  finish_llm, expect_usage, record_llm_usage, expect_llm_usage, fail_provider, start_tts, get_text,
  take_text, finish_tts, start_phrase, first_audio, take_audio, record_tts_usage, expect_tts_usage,
  start_transport, get_audio, send_item, note_sent, finish_if_playback_done,
}
use voice_mesh.Pipeline.Stream.Interrupting.{
  stop_playback, restore_recent, react_to_candidate, handle_candidate, know_response,
  offer_candidate, handle_progress, handle_done, reject_candidate, emit_rejected, confirm_from_vad,
  confirm_active, confirm_candidate,
}
use voice_mesh.Pipeline.Stream.Cancelling.{
  start_cancelling, flush_text, flush_audio, finish_cancelling, mark_interrupted, on_backpressure,
}
use voice_mesh.Pipeline.Stream.Turns.{
  end_speech, start_stt, finish_stt, record_stt_usage, expect_stt_usage, judge_turn,
  start_resolving, decide_turn, end_noise, end_resolving, accept_turn, ignore_noise_turn,
  finish_turn,
}
use voice_mesh.Pipeline.Stream.Ending.{start_call, fail_call, end_call, barrier_published}
use voice_mesh.Pipeline.Stream.Steps.{Op, step}

-- Counted from the oldest, the events have the numbers 1, 2, 3 and so on.
abbrev pub AreNumbered : List Event → Type 0
AreNumbered [] = Unit
AreNumbered (e ∷ es) = (e.sequence_number ≡ suc (length es)) × AreNumbered es

pub record IsCoherent (s : Stream) : Type 0 where
  pub one_active : s.active_response_id ≡ s.responses.active_response_id
  pub counted : s.sequence_number ≡ length s.published
  pub numbered : AreNumbered s.published

emit-IsCoherent :
    (e : EventType) (stage : String) (t : Option String) (d : Details) (s : Stream)
    → IsCoherent s
    → IsCoherent (emit e stage t d s)
unfolding emit
emit-IsCoherent e stage t d s h = record {
  one_active = h.one_active;
  counted = omega (arith, h.counted);
  numbered = (omega (arith, h.counted), h.numbered);
}

end_call-IsCoherent : (s : Stream) → IsCoherent s → IsCoherent (end_call s)
unfolding end_call emit
end_call-IsCoherent s h = ground arith

expect_usage-IsCoherent :
    (t u : String) (s : Stream) → IsCoherent s → IsCoherent (expect_usage t u s)
unfolding expect_usage
expect_usage-IsCoherent t u s h = ground arith

barrier_published-IsCoherent :
    (raised : Bool) (s : Stream) → IsCoherent s → IsCoherent (barrier_published raised s)
unfolding barrier_published emit
barrier_published-IsCoherent raised s h = ground arith

expect_llm_usage-IsCoherent : (s : Stream) → IsCoherent s → IsCoherent (expect_llm_usage s)
unfolding expect_llm_usage
expect_llm_usage-IsCoherent s h =
    expect_usage-IsCoherent s.turn_id "llm_output_tokens" _
      (expect_usage-IsCoherent s.turn_id "llm_input_tokens" s h)

expect_tts_usage-IsCoherent : (s : Stream) → IsCoherent s → IsCoherent (expect_tts_usage s)
unfolding expect_tts_usage
expect_tts_usage-IsCoherent s h =
    expect_usage-IsCoherent s.turn_id "tts_audio_seconds" _
      (expect_usage-IsCoherent s.turn_id "tts_characters" s h)

decide_turn-IsCoherent :
    (t transcript : String) (found : Option BargeInSemantic) (s : Stream)
    → IsCoherent s
    → IsCoherent (decide_turn t transcript found s).0
unfolding decide_turn
decide_turn-IsCoherent t transcript found s h = ground arith

judge_turn-IsCoherent :
    (t transcript : String) (current : TurnStats) (s : Stream)
    → IsCoherent s
    → IsCoherent (judge_turn t transcript current s).0
unfolding judge_turn start_resolving emit
judge_turn-IsCoherent t transcript current s h =
    ground (arith, decide_turn-IsCoherent t transcript none s)

end_resolving-IsCoherent :
    (t transcript : String) (semantic : BargeInSemantic) (s : Stream)
    → IsCoherent s
    → IsCoherent (end_resolving t transcript semantic s).0
unfolding end_resolving
end_resolving-IsCoherent t transcript semantic s h =
    decide_turn-IsCoherent t transcript (some semantic)
      (record s { barge_in = resolved semantic s.barge_in }) (ground arith)

with_queues-IsCoherent :
    (q : InitResult TextQueueItem) (p : InitResult AudioQueueItem) (s : Stream)
    → IsCoherent s
    → IsCoherent (with_queues q p s).0
with_queues-IsCoherent (InitResult.created q) (InitResult.created p) s h = record {
  one_active = h.one_active;
  counted = h.counted;
  numbered = h.numbered;
}
with_queues-IsCoherent (InitResult.value_error e) p s h = h
with_queues-IsCoherent (InitResult.created q) (InitResult.value_error e) s h = h

begin_response-IsCoherent :
    (r : String) (s : Stream) → IsCoherent s → IsCoherent (begin_response r s).0
unfolding begin_response open_response start_response
begin_response-IsCoherent r s h =
    with_queues-IsCoherent (new_text_queue s) (new_audio_queue s) (open_response r s)
      (record { one_active = refl; counted = h.counted; numbered = h.numbered })

finish_if_playback_done-IsCoherent :
    (r : String) (s : Stream) → IsCoherent s → IsCoherent (finish_if_playback_done r s)
unfolding finish_if_playback_done finish_response
finish_if_playback_done-IsCoherent r s h = ground arith

complete_transport-IsCoherent :
    (r : String) (s : Stream) → IsCoherent s → IsCoherent (complete_transport r s)
unfolding complete_transport
complete_transport-IsCoherent r s h =
    finish_if_playback_done-IsCoherent r
      (record s { transport_complete = add_text r s.transport_complete })
      (record { one_active = h.one_active; counted = h.counted; numbered = h.numbered })

send_item-IsCoherent :
    (r : String) (x : AudioQueueItem) (s : Stream) → IsCoherent s → IsCoherent (send_item r x s)
unfolding send_item drop_stale_chunk emit finish_if_playback_done complete_transport
send_item-IsCoherent r (audio_chunk x) s h = ground arith
send_item-IsCoherent r (end_of_audio e) s h =
    emit-IsCoherent transport_audio_sent "transport" none plain (complete_transport r s)
      (complete_transport-IsCoherent r s h)

restore_recent-IsCoherent :
    (x : BargeInCandidate) (now : ℕ) (s : Stream)
    → IsCoherent s
    → IsCoherent (restore_recent x now s)
unfolding restore_recent
restore_recent-IsCoherent x now s h = ground arith

react-IsCoherent :
    (x : BargeInCandidate) (now : ℕ) (o : Option BargeInTransition) (s : Stream)
    → IsCoherent s
    → IsCoherent (react_to_candidate x now o s)
unfolding react_to_candidate emit_rejected emit
react-IsCoherent x now none s h = h
react-IsCoherent x now (some t) s h = ground arith

know_response-IsCoherent :
    (x : BargeInCandidate) (now : ℕ) (s : Stream)
    → IsCoherent s
    → IsCoherent (know_response x now s)
unfolding know_response
know_response-IsCoherent x now s h = ground (arith, restore_recent-IsCoherent x now s)

offer_candidate-IsCoherent :
    (x : BargeInCandidate) (now : ℕ) (s : Stream)
    → IsCoherent s
    → IsCoherent (offer_candidate x now s)
unfolding offer_candidate
offer_candidate-IsCoherent x now s h =
    react-IsCoherent x now (offer x s.barge_in).1 (record s { barge_in = (offer x s.barge_in).0 })
      (record { one_active = h.one_active; counted = h.counted; numbered = h.numbered })

handle_candidate-IsCoherent :
    (x : BargeInCandidate) (now : ℕ) (s : Stream)
    → IsCoherent s
    → IsCoherent (handle_candidate x now s)
unfolding handle_candidate
handle_candidate-IsCoherent x now s h =
    offer_candidate-IsCoherent x now (know_response x now s) (know_response-IsCoherent x now s h)

handle_done-IsCoherent :
    (t r : String) (sequence played : ℤ) (now : ℕ) (s : Stream)
    → IsCoherent s
    → IsCoherent (handle_done t r sequence played now s)
unfolding handle_done handle_progress
handle_done-IsCoherent t r sequence played now s h = ground (
  arith,
  finish_if_playback_done-IsCoherent r (
      handle_progress t r sequence played now
        (record s { playback_done = add_text r s.playback_done })),
)

reject_candidate-IsCoherent :
    (reason : String) (now : ℕ) (s : Stream)
    → IsCoherent s
    → IsCoherent (reject_candidate reason now s)
unfolding reject_candidate emit_rejected emit
reject_candidate-IsCoherent reason now s h = ground arith

confirm_active-IsCoherent :
    (o : Option String) (u : TurnUpdate) (now : ℕ) (s : Stream)
    → IsCoherent s
    → IsCoherent (confirm_active o u now s).0
unfolding confirm_active confirm_candidate emit
confirm_active-IsCoherent none u now s h = h
confirm_active-IsCoherent (some r) u now s h = ground arith

start_cancelling-IsCoherent :
    (r reason : String) (s : Stream) → IsCoherent s → IsCoherent (start_cancelling r reason s).0
unfolding start_cancelling cancel_response
start_cancelling-IsCoherent r reason s h = ground arith

finish_cancelling-IsCoherent :
    (r reason : String) (texts audios now : ℕ) (s : Stream)
    → IsCoherent s
    → IsCoherent (finish_cancelling r reason texts audios now s)
unfolding finish_cancelling mark_interrupted emit
finish_cancelling-IsCoherent r reason texts audios now s h = ground arith

step-IsCoherent : (s : Stream) (op : Op) → IsCoherent s → IsCoherent (step s op)
unfolding step note_sent end_noise ignore_noise_turn accept_turn stop_playback finish_stt
    record_stt_usage expect_stt_usage record_llm_usage record_tts_usage confirm_from_vad start_call
    fail_call end_speech start_stt finish_turn end_response response_timeout start_llm first_token
    take_token put_text put_audio finish_llm fail_provider start_tts get_text take_text finish_tts
    start_phrase first_audio take_audio start_transport get_audio handle_progress flush_text
    flush_audio on_backpressure drop_stale_chunk emit
step-IsCoherent s Op.starting h = ground arith
step-IsCoherent s Op.ending h = end_call-IsCoherent s h
step-IsCoherent s (Op.ending_published raised) h = barrier_published-IsCoherent raised s h
step-IsCoherent s Op.failing h = ground arith
step-IsCoherent s (Op.stt_expecting t) h = expect_usage-IsCoherent t "stt_audio_seconds" s h
step-IsCoherent s (Op.judging t transcript current) h =
    judge_turn-IsCoherent t transcript current s h
step-IsCoherent s (Op.resolving t transcript semantic) h =
    end_resolving-IsCoherent t transcript semantic s h
step-IsCoherent s (Op.responding r) h = begin_response-IsCoherent r s h
step-IsCoherent s Op.llm_expecting h = expect_llm_usage-IsCoherent s h
step-IsCoherent s Op.tts_expecting h = expect_tts_usage-IsCoherent s h
step-IsCoherent s (Op.sending r x) h = send_item-IsCoherent r x s h
step-IsCoherent s (Op.offering x now) h = handle_candidate-IsCoherent x now s h
step-IsCoherent s (Op.playback_finishing t r sequence played now) h =
    handle_done-IsCoherent t r sequence played now s h
step-IsCoherent s (Op.rejecting reason now) h = reject_candidate-IsCoherent reason now s h
step-IsCoherent s (Op.confirming u now) h = confirm_active-IsCoherent s.active_response_id u now s h
step-IsCoherent s (Op.cancelling r reason) h = start_cancelling-IsCoherent r reason s h
step-IsCoherent s (Op.cancelled r reason texts audios now) h =
    finish_cancelling-IsCoherent r reason texts audios now s h
step-IsCoherent s _ h = ground arith

-- Over any sections from a coherent state, the pipeline's active response is the controller's, and the
-- events handed to the producer have the numbers 1, 2, 3 and so on, in their order and without a gap.
pub run-IsCoherent : (s : Stream) (ops : List Op) → IsCoherent s → IsCoherent (run step s ops)
run-IsCoherent s ops h = run_induction step IsCoherent step-IsCoherent s ops h

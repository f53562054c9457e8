-- ===== src/Pipeline/Stream/Once.antt =====
-- What happens at most once in a call, in every interleaving of its tasks.
use voice_mesh.Prelude.{
  ℕ, ◌≡◌, String, Option, none, some, List, [], ◌∷◌, arith, add_text, bit, str_eq, eq_iff, ◌+◌, ◌≤◌,
  has_text, true, false, Bool,
}
use voice_mesh.Prelude.Traces.{run, run_induction}
use voice_mesh.Events.Schemas.{EventType, call_ended, usage_finalization_barrier}
use voice_mesh.Prelude.Dict.{lookup, lookup-insert, get_or}
use voice_mesh.Prelude.Int.{ℤ}
use voice_mesh.Pipeline.Queue.{InitResult}
use voice_mesh.Pipeline.Responses.{
  is_response_active, start_response, cancel_response, finish_response,
}
use voice_mesh.Pipeline.BargeIn.{BargeInSemantic, BargeInTransition, BargeInCandidate, offer}
use voice_mesh.Pipeline.BargeIn.Cancelling.{resolved}
use voice_mesh.Pipeline.TurnDetector.{TurnUpdate}
use voice_mesh.Pipeline.Stream.{
  Stream, Event, Message, interrupted, TextQueueItem, AudioQueueItem, audio_chunk, end_of_audio,
  is_stale_response, emit, drop_stale_chunk, TurnStats,
}
use voice_mesh.Pipeline.Stream.Speaking.{
  with_queues, open_response, new_text_queue, new_audio_queue, complete_transport, begin_response,
  end_response, response_timeout, start_llm, first_token, take_token, put_text, put_audio,
  finish_llm, expect_usage, record_llm_usage, expect_llm_usage, fail_provider, start_tts, get_text,
  take_text, finish_tts, start_phrase, first_audio, take_audio, record_tts_usage, expect_tts_usage,
  start_transport, get_audio, send_item, note_sent, finish_if_playback_done,
}
use voice_mesh.Pipeline.Stream.Interrupting.{
  stop_playback, restore_recent, react_to_candidate, handle_candidate, know_response,
  offer_candidate, handle_progress, handle_done, reject_candidate, emit_rejected, confirm_from_vad,
  confirm_active, confirm_candidate,
}
use voice_mesh.Pipeline.Stream.Cancelling.{
  start_cancelling, flush_text, flush_audio, finish_cancelling, mark_interrupted, on_backpressure,
}
use voice_mesh.Pipeline.Stream.Turns.{
  end_speech, start_stt, finish_stt, record_stt_usage, expect_stt_usage, judge_turn,
  start_resolving, decide_turn, end_noise, end_resolving, accept_turn, ignore_noise_turn,
  finish_turn,
}
use voice_mesh.Pipeline.Stream.Ending.{start_call, fail_call, end_call, barrier_published}
use voice_mesh.Pipeline.Stream.Steps.{Op, step}

-- How often the conversation has a response as interrupted.
abbrev pub marks_of : String → List Message → ℕ
marks_of z [] = 0
marks_of z (interrupted r t spoken generated ∷ ms) = bit (str_eq z r) + marks_of z ms
marks_of z (_ ∷ ms) = marks_of z ms

abbrev is_end : EventType → Bool
is_end call_ended = true
is_end _ = false

abbrev is_barrier : EventType → Bool
is_barrier usage_finalization_barrier = true
is_barrier _ = false

abbrev pub ends_in : List Event → ℕ
ends_in [] = 0
ends_in (e ∷ es) = bit (is_end e.event_type) + ends_in es

abbrev pub barriers_in : List Event → ℕ
barriers_in [] = 0
barriers_in (e ∷ es) = bit (is_barrier e.event_type) + barriers_in es

pub record IsOnce (z : String) (s : Stream) : Type 0 where
  pub one_mark : marks_of z s.conversation ≡ bit (has_text z s.interrupted_ids)
  pub barred : barriers_in s.published ≤ bit s.is_closed
  pub ended : ends_in s.published + bit s.is_ending ≤ barriers_in s.published
  pub no_session : lookup "session" s.usage_expectations ≡ none

module _ (z : String) where
  end_call-IsOnce : (s : Stream) → IsOnce z s → IsOnce z (end_call s)
  unfolding end_call emit
  end_call-IsOnce s h = ground arith

  expect_usage-IsOnce : (t u : String) (s : Stream) → IsOnce z s → IsOnce z (expect_usage t u s)
  unfolding expect_usage
  expect_usage-IsOnce t u s h =
      let usages = add_text u (get_or [] (lookup t s.usage_expectations)) in
      ground (arith, lookup-insert t "session" usages s.usage_expectations)

  barrier_published-IsOnce :
      (raised : Bool) (s : Stream) → IsOnce z s → IsOnce z (barrier_published raised s)
  unfolding barrier_published emit
  barrier_published-IsOnce raised s h = ground arith

  expect_llm_usage-IsOnce : (s : Stream) → IsOnce z s → IsOnce z (expect_llm_usage s)
  unfolding expect_llm_usage
  expect_llm_usage-IsOnce s h =
      expect_usage-IsOnce s.turn_id "llm_output_tokens" _
        (expect_usage-IsOnce s.turn_id "llm_input_tokens" s h)

  expect_tts_usage-IsOnce : (s : Stream) → IsOnce z s → IsOnce z (expect_tts_usage s)
  unfolding expect_tts_usage
  expect_tts_usage-IsOnce s h =
      expect_usage-IsOnce s.turn_id "tts_audio_seconds" _
        (expect_usage-IsOnce s.turn_id "tts_characters" s h)

  decide_turn-IsOnce :
      (t transcript : String) (found : Option BargeInSemantic) (s : Stream)
      → IsOnce z s
      → IsOnce z (decide_turn t transcript found s).0
  unfolding decide_turn
  decide_turn-IsOnce t transcript found s h = ground arith

  judge_turn-IsOnce :
      (t transcript : String) (current : TurnStats) (s : Stream)
      → IsOnce z s
      → IsOnce z (judge_turn t transcript current s).0
  unfolding judge_turn start_resolving emit
  judge_turn-IsOnce t transcript current s h =
      ground (arith, decide_turn-IsOnce t transcript none s)

  end_resolving-IsOnce :
      (t transcript : String) (semantic : BargeInSemantic) (s : Stream)
      → IsOnce z s
      → IsOnce z (end_resolving t transcript semantic s).0
  unfolding end_resolving
  end_resolving-IsOnce t transcript semantic s h =
      decide_turn-IsOnce t transcript (some semantic)
        (record s { barge_in = resolved semantic s.barge_in }) (ground arith)

  with_queues-IsOnce :
      (q : InitResult TextQueueItem) (p : InitResult AudioQueueItem) (s : Stream)
      → IsOnce z s
      → IsOnce z (with_queues q p s).0
  with_queues-IsOnce (InitResult.created q) (InitResult.created p) s h = record {
    one_mark = h.one_mark;
    ended = h.ended;
    barred = h.barred;
    no_session = h.no_session;
  }
  with_queues-IsOnce (InitResult.value_error e) p s h = h
  with_queues-IsOnce (InitResult.created q) (InitResult.value_error e) s h = h

  begin_response-IsOnce : (r : String) (s : Stream) → IsOnce z s → IsOnce z (begin_response r s).0
  unfolding begin_response open_response start_response
  begin_response-IsOnce r s h =
      with_queues-IsOnce (new_text_queue s) (new_audio_queue s) (open_response r s) (record {
        one_mark = h.one_mark;
        ended = h.ended;
        barred = h.barred;
        no_session = h.no_session;
      })

  finish_if_playback_done-IsOnce :
      (r : String) (s : Stream) → IsOnce z s → IsOnce z (finish_if_playback_done r s)
  unfolding finish_if_playback_done finish_response
  finish_if_playback_done-IsOnce r s h = ground arith

  complete_transport-IsOnce :
      (r : String) (s : Stream) → IsOnce z s → IsOnce z (complete_transport r s)
  unfolding complete_transport
  complete_transport-IsOnce r s h =
      finish_if_playback_done-IsOnce r
        (record s { transport_complete = add_text r s.transport_complete })
        (record {
          one_mark = h.one_mark;
          ended = h.ended;
          barred = h.barred;
          no_session = h.no_session;
        })

  send_item-IsOnce :
      (r : String) (x : AudioQueueItem) (s : Stream) → IsOnce z s → IsOnce z (send_item r x s)
  unfolding is_stale_response is_response_active send_item drop_stale_chunk emit
      finish_if_playback_done complete_transport
  send_item-IsOnce r (audio_chunk x) s h = ground (arith, eq_iff x.response_id z)
  send_item-IsOnce r (end_of_audio e) s h =
      let k = complete_transport-IsOnce r s h in
      record {
        one_mark = k.one_mark;
        ended = omega (arith, k.ended);
        barred = omega (arith, k.barred);
        no_session = k.no_session;
      }

  restore_recent-IsOnce :
      (x : BargeInCandidate) (now : ℕ) (s : Stream) → IsOnce z s → IsOnce z (restore_recent x now s)
  unfolding restore_recent
  restore_recent-IsOnce x now s h = ground arith

  react-IsOnce :
      (x : BargeInCandidate) (now : ℕ) (o : Option BargeInTransition) (s : Stream)
      → IsOnce z s
      → IsOnce z (react_to_candidate x now o s)
  unfolding react_to_candidate emit_rejected emit
  react-IsOnce x now none s h = h
  react-IsOnce x now (some t) s h = ground arith

  know_response-IsOnce :
      (x : BargeInCandidate) (now : ℕ) (s : Stream) → IsOnce z s → IsOnce z (know_response x now s)
  unfolding know_response
  know_response-IsOnce x now s h = ground (arith, restore_recent-IsOnce x now s)

  offer_candidate-IsOnce :
      (x : BargeInCandidate) (now : ℕ) (s : Stream)
      → IsOnce z s
      → IsOnce z (offer_candidate x now s)
  unfolding offer_candidate
  offer_candidate-IsOnce x now s h =
      react-IsOnce x now (offer x s.barge_in).1 (record s { barge_in = (offer x s.barge_in).0 })
        (record {
          one_mark = h.one_mark;
          ended = h.ended;
          barred = h.barred;
          no_session = h.no_session;
        })

  handle_candidate-IsOnce :
      (x : BargeInCandidate) (now : ℕ) (s : Stream)
      → IsOnce z s
      → IsOnce z (handle_candidate x now s)
  unfolding handle_candidate
  handle_candidate-IsOnce x now s h =
      offer_candidate-IsOnce x now (know_response x now s) (know_response-IsOnce x now s h)

  handle_done-IsOnce :
      (t r : String) (sequence played : ℤ) (now : ℕ) (s : Stream)
      → IsOnce z s
      → IsOnce z (handle_done t r sequence played now s)
  unfolding handle_done handle_progress
  handle_done-IsOnce t r sequence played now s h = ground (
    arith,
    finish_if_playback_done-IsOnce r (
        handle_progress t r sequence played now
          (record s { playback_done = add_text r s.playback_done })),
  )

  reject_candidate-IsOnce :
      (reason : String) (now : ℕ) (s : Stream)
      → IsOnce z s
      → IsOnce z (reject_candidate reason now s)
  unfolding reject_candidate emit_rejected emit
  reject_candidate-IsOnce reason now s h = ground arith

  confirm_active-IsOnce :
      (o : Option String) (u : TurnUpdate) (now : ℕ) (s : Stream)
      → IsOnce z s
      → IsOnce z (confirm_active o u now s).0
  unfolding confirm_active confirm_candidate emit
  confirm_active-IsOnce none u now s h = h
  confirm_active-IsOnce (some r) u now s h = ground arith

  pub start_cancelling-IsOnce :
      (r reason : String) (s : Stream) → IsOnce z s → IsOnce z (start_cancelling r reason s).0
  unfolding start_cancelling cancel_response
  start_cancelling-IsOnce r reason s h =
      ground (arith, lookup-insert r z reason s.responses.cancelled)

  pub finish_cancelling-IsOnce :
      (r reason : String) (texts audios now : ℕ) (s : Stream)
      → IsOnce z s
      → IsOnce z (finish_cancelling r reason texts audios now s)
  unfolding finish_cancelling mark_interrupted emit
  finish_cancelling-IsOnce r reason texts audios now s h = ground (arith, eq_iff z r)

  pub step-IsOnce : (s : Stream) (op : Op) → IsOnce z s → IsOnce z (step s op)
  unfolding step note_sent end_noise ignore_noise_turn accept_turn stop_playback finish_stt
      record_stt_usage expect_stt_usage record_llm_usage record_tts_usage confirm_from_vad
      start_call fail_call end_speech start_stt finish_turn end_response response_timeout start_llm
      first_token take_token put_text put_audio finish_llm fail_provider start_tts get_text
      take_text finish_tts start_phrase first_audio take_audio start_transport get_audio
      handle_progress flush_text flush_audio on_backpressure drop_stale_chunk emit
  step-IsOnce s Op.starting h = ground arith
  step-IsOnce s Op.ending h = end_call-IsOnce s h
  step-IsOnce s (Op.ending_published raised) h = barrier_published-IsOnce raised s h
  step-IsOnce s Op.failing h = ground arith
  step-IsOnce s (Op.stt_expecting t) h = expect_usage-IsOnce t "stt_audio_seconds" s h
  step-IsOnce s (Op.judging t transcript current) h = judge_turn-IsOnce t transcript current s h
  step-IsOnce s (Op.resolving t transcript semantic) h =
      end_resolving-IsOnce t transcript semantic s h
  step-IsOnce s (Op.responding r) h = begin_response-IsOnce r s h
  step-IsOnce s Op.llm_expecting h = expect_llm_usage-IsOnce s h
  step-IsOnce s Op.tts_expecting h = expect_tts_usage-IsOnce s h
  step-IsOnce s (Op.sending r x) h = send_item-IsOnce r x s h
  step-IsOnce s (Op.offering x now) h = handle_candidate-IsOnce x now s h
  step-IsOnce s (Op.playback_finishing t r sequence played now) h =
      handle_done-IsOnce t r sequence played now s h
  step-IsOnce s (Op.rejecting reason now) h = reject_candidate-IsOnce reason now s h
  step-IsOnce s (Op.confirming u now) h = confirm_active-IsOnce s.active_response_id u now s h
  step-IsOnce s (Op.cancelling r reason) h = start_cancelling-IsOnce r reason s h
  step-IsOnce s (Op.cancelled r reason texts audios now) h =
      finish_cancelling-IsOnce r reason texts audios now s h
  step-IsOnce s _ h = ground arith

-- In every interleaving from a call where this holds, the conversation has a response as interrupted
-- once if it is in the set of interrupted responses and never otherwise, the producer is handed the
-- barrier of the usage at most once and only when the call is closed, it is handed call.ended at most as
-- often as the barrier, and less often while the publication of the barrier goes on, and no usage is
-- expected of the turn "session".
pub run-IsOnce : (z : String) (s : Stream) (ops : List Op) → IsOnce z s → IsOnce z (run step s ops)
run-IsOnce z s ops h = run_induction step (IsOnce z) (step-IsOnce z) s ops h

-- ===== src/Pipeline/Stream/Silence.antt =====
-- A cancelled response stays silent, in every interleaving of the tasks.
use voice_mesh.Prelude.{
  ℕ, ◌≡◌, refl, String, true, Option, none, some, List, [], ◌∷◌, arith, add_text, bit, str_eq,
  eq_iff, ◌+◌, ◌≤◌, has_text, Bool,
}
use voice_mesh.Prelude.Traces.{run, run_induction}
use voice_mesh.Prelude.Dict.{has_key, lookup-insert}
use voice_mesh.Prelude.Int.{ℤ}
use voice_mesh.Pipeline.Queue.{InitResult}
use voice_mesh.Pipeline.Responses.{
  is_response_active, start_response, cancel_response, finish_response,
}
use voice_mesh.Pipeline.BargeIn.{BargeInSemantic, BargeInTransition, BargeInCandidate, offer}
use voice_mesh.Pipeline.BargeIn.Cancelling.{resolved}
use voice_mesh.Pipeline.TurnDetector.{TurnUpdate}
use voice_mesh.Pipeline.Stream.{
  Stream, AudioChunk, TextQueueItem, AudioQueueItem, audio_chunk, end_of_audio, is_stale_response,
  emit, drop_stale_chunk, TurnStats,
}
use voice_mesh.Pipeline.Stream.Speaking.{
  with_queues, open_response, new_text_queue, new_audio_queue, complete_transport, begin_response,
  end_response, response_timeout, start_llm, first_token, take_token, put_text, put_audio,
  finish_llm, expect_usage, record_llm_usage, expect_llm_usage, fail_provider, start_tts, get_text,
  take_text, finish_tts, start_phrase, first_audio, take_audio, record_tts_usage, expect_tts_usage,
  start_transport, get_audio, send_item, note_sent, finish_if_playback_done,
}
use voice_mesh.Pipeline.Stream.Interrupting.{
  stop_playback, restore_recent, react_to_candidate, handle_candidate, know_response,
  offer_candidate, handle_progress, handle_done, reject_candidate, emit_rejected, confirm_from_vad,
  confirm_active, confirm_candidate,
}
use voice_mesh.Pipeline.Stream.Cancelling.{
  start_cancelling, flush_text, flush_audio, finish_cancelling, mark_interrupted, on_backpressure,
}
use voice_mesh.Pipeline.Stream.Turns.{
  end_speech, start_stt, finish_stt, record_stt_usage, expect_stt_usage, judge_turn,
  start_resolving, decide_turn, end_noise, end_resolving, accept_turn, ignore_noise_turn,
  finish_turn,
}
use voice_mesh.Pipeline.Stream.Ending.{start_call, fail_call, end_call, barrier_published}
use voice_mesh.Pipeline.Stream.Steps.{Op, step}

-- How many of the chunks sent belong to a response.
abbrev pub sent_of : String → List AudioChunk → ℕ
sent_of z [] = 0
sent_of z (x ∷ xs) = bit (str_eq x.response_id z) + sent_of z xs

-- Response `z` is cancelled, `n` chunks of it were sent, and if `m` is 1 it is marked as interrupted.
pub record IsHushed (z : String) (n m : ℕ) (s : Stream) : Type 0 where
  pub is_cancelled : has_key z s.responses.cancelled ≡ true
  pub said : sent_of z s.sent ≡ n
  pub marked : m ≤ bit (has_text z s.interrupted_ids)

pub start_cancelling-cancels :
    (r reason : String) (s : Stream)
    → let s' = (start_cancelling r reason s).0 in IsHushed r (sent_of r s'.sent) 0 s'
unfolding start_cancelling cancel_response
start_cancelling-cancels r reason s = record {
  is_cancelled = ground (arith, lookup-insert r r reason s.responses.cancelled, eq_iff r r);
  said = refl;
  marked = omega arith;
}

module _ (z : String) (n m : ℕ) where
  end_call-IsHushed : (s : Stream) → IsHushed z n m s → IsHushed z n m (end_call s)
  unfolding end_call emit
  end_call-IsHushed s h = ground arith

  expect_usage-IsHushed :
      (t u : String) (s : Stream) → IsHushed z n m s → IsHushed z n m (expect_usage t u s)
  unfolding expect_usage
  expect_usage-IsHushed t u s h = ground arith

  barrier_published-IsHushed :
      (raised : Bool) (s : Stream) → IsHushed z n m s → IsHushed z n m (barrier_published raised s)
  unfolding barrier_published emit
  barrier_published-IsHushed raised s h = ground arith

  expect_llm_usage-IsHushed : (s : Stream) → IsHushed z n m s → IsHushed z n m (expect_llm_usage s)
  unfolding expect_llm_usage
  expect_llm_usage-IsHushed s h =
      expect_usage-IsHushed s.turn_id "llm_output_tokens" _
        (expect_usage-IsHushed s.turn_id "llm_input_tokens" s h)

  expect_tts_usage-IsHushed : (s : Stream) → IsHushed z n m s → IsHushed z n m (expect_tts_usage s)
  unfolding expect_tts_usage
  expect_tts_usage-IsHushed s h =
      expect_usage-IsHushed s.turn_id "tts_audio_seconds" _
        (expect_usage-IsHushed s.turn_id "tts_characters" s h)

  decide_turn-IsHushed :
      (t transcript : String) (found : Option BargeInSemantic) (s : Stream)
      → IsHushed z n m s
      → IsHushed z n m (decide_turn t transcript found s).0
  unfolding decide_turn
  decide_turn-IsHushed t transcript found s h = ground arith

  judge_turn-IsHushed :
      (t transcript : String) (current : TurnStats) (s : Stream)
      → IsHushed z n m s
      → IsHushed z n m (judge_turn t transcript current s).0
  unfolding judge_turn start_resolving emit
  judge_turn-IsHushed t transcript current s h =
      ground (arith, decide_turn-IsHushed t transcript none s)

  end_resolving-IsHushed :
      (t transcript : String) (semantic : BargeInSemantic) (s : Stream)
      → IsHushed z n m s
      → IsHushed z n m (end_resolving t transcript semantic s).0
  unfolding end_resolving
  end_resolving-IsHushed t transcript semantic s h =
      decide_turn-IsHushed t transcript (some semantic)
        (record s { barge_in = resolved semantic s.barge_in }) (ground arith)

  with_queues-IsHushed :
      (q : InitResult TextQueueItem) (p : InitResult AudioQueueItem) (s : Stream)
      → IsHushed z n m s
      → IsHushed z n m (with_queues q p s).0
  with_queues-IsHushed (InitResult.created q) (InitResult.created p) s h = record {
    is_cancelled = h.is_cancelled;
    said = h.said;
    marked = h.marked;
  }
  with_queues-IsHushed (InitResult.value_error e) p s h = h
  with_queues-IsHushed (InitResult.created q) (InitResult.value_error e) s h = h

  begin_response-IsHushed :
      (r : String) (s : Stream) → IsHushed z n m s → IsHushed z n m (begin_response r s).0
  unfolding begin_response open_response start_response
  begin_response-IsHushed r s h =
      with_queues-IsHushed (new_text_queue s) (new_audio_queue s) (open_response r s)
        (record { is_cancelled = h.is_cancelled; said = h.said; marked = h.marked })

  finish_if_playback_done-IsHushed :
      (r : String) (s : Stream) → IsHushed z n m s → IsHushed z n m (finish_if_playback_done r s)
  unfolding finish_if_playback_done finish_response
  finish_if_playback_done-IsHushed r s h = ground arith

  complete_transport-IsHushed :
      (r : String) (s : Stream) → IsHushed z n m s → IsHushed z n m (complete_transport r s)
  unfolding complete_transport
  complete_transport-IsHushed r s h =
      finish_if_playback_done-IsHushed r
        (record s { transport_complete = add_text r s.transport_complete })
        (record { is_cancelled = h.is_cancelled; said = h.said; marked = h.marked })

  send_item-IsHushed :
      (r : String) (x : AudioQueueItem) (s : Stream)
      → IsHushed z n m s
      → IsHushed z n m (send_item r x s)
  unfolding is_stale_response is_response_active send_item drop_stale_chunk emit
      finish_if_playback_done complete_transport
  send_item-IsHushed r (audio_chunk x) s h = ground (arith, eq_iff x.response_id z)
  send_item-IsHushed r (end_of_audio e) s h =
      let k = complete_transport-IsHushed r s h in
      record { is_cancelled = k.is_cancelled; said = k.said; marked = k.marked }

  restore_recent-IsHushed :
      (x : BargeInCandidate) (now : ℕ) (s : Stream)
      → IsHushed z n m s
      → IsHushed z n m (restore_recent x now s)
  unfolding restore_recent
  restore_recent-IsHushed x now s h = ground arith

  react-IsHushed :
      (x : BargeInCandidate) (now : ℕ) (o : Option BargeInTransition) (s : Stream)
      → IsHushed z n m s
      → IsHushed z n m (react_to_candidate x now o s)
  unfolding react_to_candidate emit_rejected emit
  react-IsHushed x now none s h = h
  react-IsHushed x now (some t) s h = ground arith

  know_response-IsHushed :
      (x : BargeInCandidate) (now : ℕ) (s : Stream)
      → IsHushed z n m s
      → IsHushed z n m (know_response x now s)
  unfolding know_response
  know_response-IsHushed x now s h = ground (arith, restore_recent-IsHushed x now s)

  offer_candidate-IsHushed :
      (x : BargeInCandidate) (now : ℕ) (s : Stream)
      → IsHushed z n m s
      → IsHushed z n m (offer_candidate x now s)
  unfolding offer_candidate
  offer_candidate-IsHushed x now s h =
      react-IsHushed x now (offer x s.barge_in).1 (record s { barge_in = (offer x s.barge_in).0 })
        (record { is_cancelled = h.is_cancelled; said = h.said; marked = h.marked })

  handle_candidate-IsHushed :
      (x : BargeInCandidate) (now : ℕ) (s : Stream)
      → IsHushed z n m s
      → IsHushed z n m (handle_candidate x now s)
  unfolding handle_candidate
  handle_candidate-IsHushed x now s h =
      offer_candidate-IsHushed x now (know_response x now s) (know_response-IsHushed x now s h)

  handle_done-IsHushed :
      (t r : String) (sequence played : ℤ) (now : ℕ) (s : Stream)
      → IsHushed z n m s
      → IsHushed z n m (handle_done t r sequence played now s)
  unfolding handle_done handle_progress
  handle_done-IsHushed t r sequence played now s h = ground (
    arith,
    finish_if_playback_done-IsHushed r (
        handle_progress t r sequence played now
          (record s { playback_done = add_text r s.playback_done })),
  )

  reject_candidate-IsHushed :
      (reason : String) (now : ℕ) (s : Stream)
      → IsHushed z n m s
      → IsHushed z n m (reject_candidate reason now s)
  unfolding reject_candidate emit_rejected emit
  reject_candidate-IsHushed reason now s h = ground arith

  confirm_active-IsHushed :
      (o : Option String) (u : TurnUpdate) (now : ℕ) (s : Stream)
      → IsHushed z n m s
      → IsHushed z n m (confirm_active o u now s).0
  unfolding confirm_active confirm_candidate emit
  confirm_active-IsHushed none u now s h = h
  confirm_active-IsHushed (some r) u now s h = ground arith

  start_cancelling-IsHushed :
      (r reason : String) (s : Stream)
      → IsHushed z n m s
      → IsHushed z n m (start_cancelling r reason s).0
  unfolding start_cancelling cancel_response
  start_cancelling-IsHushed r reason s h =
      ground (arith, lookup-insert r z reason s.responses.cancelled)

  pub finish_cancelling-IsHushed :
      (r reason : String) (texts audios now : ℕ) (s : Stream)
      → IsHushed z n m s
      → IsHushed z n m (finish_cancelling r reason texts audios now s)
  unfolding finish_cancelling mark_interrupted emit
  finish_cancelling-IsHushed r reason texts audios now s h = ground (arith, eq_iff z r)

  pub step-IsHushed : (s : Stream) (op : Op) → IsHushed z n m s → IsHushed z n m (step s op)
  unfolding step note_sent end_noise ignore_noise_turn accept_turn stop_playback finish_stt
      record_stt_usage expect_stt_usage record_llm_usage record_tts_usage confirm_from_vad
      start_call fail_call end_speech start_stt finish_turn end_response response_timeout start_llm
      first_token take_token put_text put_audio finish_llm fail_provider start_tts get_text
      take_text finish_tts start_phrase first_audio take_audio start_transport get_audio
      handle_progress flush_text flush_audio on_backpressure drop_stale_chunk emit
  step-IsHushed s Op.starting h = ground arith
  step-IsHushed s Op.ending h = end_call-IsHushed s h
  step-IsHushed s (Op.ending_published raised) h = barrier_published-IsHushed raised s h
  step-IsHushed s Op.failing h = ground arith
  step-IsHushed s (Op.stt_expecting t) h = expect_usage-IsHushed t "stt_audio_seconds" s h
  step-IsHushed s (Op.judging t transcript current) h = judge_turn-IsHushed t transcript current s h
  step-IsHushed s (Op.resolving t transcript semantic) h =
      end_resolving-IsHushed t transcript semantic s h
  step-IsHushed s (Op.responding r) h = begin_response-IsHushed r s h
  step-IsHushed s Op.llm_expecting h = expect_llm_usage-IsHushed s h
  step-IsHushed s Op.tts_expecting h = expect_tts_usage-IsHushed s h
  step-IsHushed s (Op.sending r x) h = send_item-IsHushed r x s h
  step-IsHushed s (Op.offering x now) h = handle_candidate-IsHushed x now s h
  step-IsHushed s (Op.playback_finishing t r sequence played now) h =
      handle_done-IsHushed t r sequence played now s h
  step-IsHushed s (Op.rejecting reason now) h = reject_candidate-IsHushed reason now s h
  step-IsHushed s (Op.confirming u now) h = confirm_active-IsHushed s.active_response_id u now s h
  step-IsHushed s (Op.cancelling r reason) h = start_cancelling-IsHushed r reason s h
  step-IsHushed s (Op.cancelled r reason texts audios now) h =
      finish_cancelling-IsHushed r reason texts audios now s h
  step-IsHushed s _ h = ground arith

  pub run-IsHushed :
      (s : Stream) (ops : List Op) → IsHushed z n m s → IsHushed z n m (run step s ops)
  run-IsHushed s ops h = run_induction step (IsHushed z n m) step-IsHushed s ops h

-- From the first section of a response's cancellation on, in every interleaving of the tasks of the
-- call, no chunk of its audio is sent to the browser.
pub start_cancelling-silent :
    (r reason : String) (s : Stream) (ops : List Op)
    → let s' = (start_cancelling r reason s).0 in
      sent_of r (run step s' ops).sent ≡ sent_of r s'.sent
start_cancelling-silent r reason s ops =
    let s' = (start_cancelling r reason s).0 in
    let n = sent_of r s'.sent in
    (run-IsHushed r n 0 s' ops (start_cancelling-cancels r reason s)).said

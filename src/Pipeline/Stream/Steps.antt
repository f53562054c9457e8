-- ===== src/Pipeline/Stream/Steps.antt =====
-- Every interleaving of the tasks of a call, as a list of sections: the receive loop, the three tasks
-- of a response and the reports of the queues. A section's locals may be any values, so that a list
-- covers more than the program does.
use voice_mesh.Prelude.{ℕ, String, Bool, Option}
use voice_mesh.Prelude.Int.{ℤ}
use voice_mesh.Pipeline.Queue.{BackpressureTransition}
use voice_mesh.Pipeline.BargeIn.{BargeInCandidate, BargeInSemantic}
use voice_mesh.Pipeline.TurnDetector.{TurnUpdate}
use voice_mesh.Pipeline.Stream.{Stream, TurnStats, TextChunk, TextQueueItem, AudioQueueItem}
use voice_mesh.Pipeline.Stream.Speaking.{
  begin_response, end_response, response_timeout, start_llm, first_token, take_token, put_text,
  put_audio, finish_llm, record_llm_usage, expect_llm_usage, fail_provider, start_tts, get_text,
  take_text, finish_tts, start_phrase, first_audio, take_audio, record_tts_usage, expect_tts_usage,
  start_transport, get_audio, send_item, note_sent,
}
use voice_mesh.Pipeline.Stream.Interrupting.{
  handle_candidate, stop_playback, handle_progress, handle_done, reject_candidate, confirm_from_vad,
}
use voice_mesh.Pipeline.Stream.Cancelling.{
  start_cancelling, flush_text, flush_audio, finish_cancelling, on_backpressure,
}
use voice_mesh.Pipeline.Stream.Turns.{
  end_speech, start_stt, finish_stt, record_stt_usage, expect_stt_usage, judge_turn, end_noise,
  end_resolving, accept_turn, finish_turn,
}
use voice_mesh.Pipeline.Stream.Ending.{start_call, fail_call, end_call, barrier_published}

pub data Op : Type 0 where
  starting ending failing : Op
  -- Whether the publication of the barrier raised.
  ending_published : Bool → Op
  -- `update.started` gives the turn a new identifier.
  turning : String → Op
  speech_ending : TurnUpdate → Op
  stt_finishing stt_usage : Op
  stt_starting stt_expecting : String → Op
  judging : String → String → TurnStats → Op
  noise_ending : String → String → Op
  resolving : String → String → BargeInSemantic → Op
  accepting : String → String → Option BargeInSemantic → Op
  turn_finishing : Option BargeInSemantic → Op
  responding : String → Op
  response_ending timing_out : Op
  llm_starting llm_first llm_usage llm_expecting : Op
  token : String → String → String → Op
  putting_text : TextQueueItem → ℕ → Op
  putting_audio : AudioQueueItem → ℕ → Op
  llm_finishing : String → String → String → Op
  provider_failing : String → Op
  tts_starting tts_finishing tts_usage tts_expecting transport_starting : Op
  getting_text getting_audio : ℕ → Op
  taking_text : TextChunk → Op
  phrase : String → String → Op
  audio_first : String → ℕ → Op
  audio : String → String → ℕ → Op
  sending : String → AudioQueueItem → Op
  noting_sent : String → ℕ → Op
  offering : BargeInCandidate → ℕ → Op
  playback_stopping : BargeInCandidate → Op
  progressing playback_finishing : String → String → ℤ → ℤ → ℕ → Op
  rejecting : String → ℕ → Op
  confirming : TurnUpdate → ℕ → Op
  cancelling : String → String → Op
  flushing_text flushing_audio : String → ℕ → Op
  cancelled : String → String → ℕ → ℕ → ℕ → Op
  reporting : BackpressureTransition → Op

unfoldable pub step : Stream → Op → Stream
step s starting = start_call s
step s ending = end_call s
step s (ending_published raised) = barrier_published raised s
step s failing = fail_call s
step s (turning t) = record s { turn_id = t }
step s (speech_ending u) = end_speech u s
step s (stt_starting t) = start_stt t s
step s stt_finishing = finish_stt s
step s stt_usage = record_stt_usage s
step s (stt_expecting t) = expect_stt_usage t s
step s (judging t transcript current) = (judge_turn t transcript current s).0
step s (noise_ending t reason) = end_noise t reason s
step s (resolving t transcript semantic) = (end_resolving t transcript semantic s).0
step s (accepting t transcript semantic) = accept_turn t transcript semantic s
step s (turn_finishing semantic) = finish_turn semantic s
step s (responding r) = (begin_response r s).0
step s response_ending = end_response s
step s timing_out = response_timeout s
step s llm_starting = start_llm s
step s llm_first = first_token s
step s llm_usage = record_llm_usage s
step s llm_expecting = expect_llm_usage s
step s (token t r text) = (take_token t r text s).0
step s (putting_text x now) = put_text x now s
step s (putting_audio x now) = put_audio x now s
step s (llm_finishing t r response) = finish_llm t r response s
step s (provider_failing stage) = fail_provider stage s
step s tts_starting = start_tts s
step s tts_finishing = finish_tts s
step s tts_usage = record_tts_usage s
step s tts_expecting = expect_tts_usage s
step s transport_starting = start_transport s
step s (getting_text now) = get_text now s
step s (getting_audio now) = get_audio now s
step s (taking_text x) = (take_text x s).0
step s (phrase t r) = (start_phrase t r s).0
step s (audio_first r now) = first_audio r now s
step s (audio t r sequence) = (take_audio t r sequence s).0
step s (sending r x) = send_item r x s
step s (noting_sent r now) = note_sent r now s
step s (offering x now) = handle_candidate x now s
step s (playback_stopping x) = stop_playback x s
step s (progressing t r sequence played now) = handle_progress t r sequence played now s
step s (playback_finishing t r sequence played now) = handle_done t r sequence played now s
step s (rejecting reason now) = reject_candidate reason now s
step s (confirming u now) = (confirm_from_vad u now s).0
step s (cancelling r reason) = (start_cancelling r reason s).0
step s (flushing_text r now) = (flush_text r now s).0
step s (flushing_audio r now) = (flush_audio r now s).0
step s (cancelled r reason texts audios now) = finish_cancelling r reason texts audios now s
step s (reporting t) = (on_backpressure t s).0

-- ===== src/Pipeline/Stream/Speaking.antt =====
-- stream_module.py: the making of one response, `_run_llm_tts_transport` with its three tasks. The
-- locals of a task are arguments of its sections.
use voice_mesh.Prelude.{
  ℕ, suc, String, Bool, true, false, not, ◌||◌, none, some, [], ◌∷◌, if◌then◌else◌, str_eq,
  has_text, add_text, remove_text,
}
use voice_mesh.Prelude.Int.{ℤ}
use voice_mesh.Prelude.Dict.{lookup, insert, insert_new, delete, has_key, get_or}
use voice_mesh.Events.Schemas.{
  llm_started, llm_first_token, llm_final_response, tts_started, tts_first_audio, tts_completed,
  transport_audio_sent, usage_llm_recorded, usage_tts_recorded, pipeline_stage_timeout,
  provider_failed,
}
use voice_mesh.Pipeline.Queue
use voice_mesh.Pipeline.Queue.{
  FlowControlledQueue, created, value_error, Config, DepthUnit, InitResult, put_locked, get_locked,
  after,
}
use voice_mesh.Pipeline.Responses.{start_response, finish_response}
use voice_mesh.Pipeline.BargeIn.{set_assistant_playing, assistant_finished}
use voice_mesh.Pipeline.Stream.{
  Stream, QueueLimits, TextChunk, TextQueueItem, text_chunk, end_of_text, AudioQueueItem,
  audio_chunk, end_of_audio, completed, plain, emit, is_stale_response, drop_stale_chunk,
  estimate_speech_ms,
}

-- The weights of the items.
abbrev pub text_weight : TextQueueItem → ℤ
text_weight (text_chunk x) = ℤ.pos x.estimated_speech_ms
text_weight (end_of_text e) = ℤ.pos 0

abbrev pub audio_weight : AudioQueueItem → ℤ
audio_weight (audio_chunk x) = ℤ.pos x.duration_ms
audio_weight (end_of_audio e) = ℤ.pos 0

abbrev pub config_of : {T : Type 0} → String → DepthUnit → QueueLimits → (T → ℤ) → Stream → Config T
config_of stage unit limits weight s = record {
  call_id = s.call_id;
  stage = stage;
  depth_unit = unit;
  low_watermark = limits.low_watermark;
  high_watermark = limits.high_watermark;
  hard_limit = limits.hard_limit;
  weight_fn = weight;
  max_items = s.settings.flow_queue_max_items;
}

-- The new queues, if both constructors accept their limits; else ValueError, and `false`.
abbrev pub with_queues :
    InitResult TextQueueItem → InitResult AudioQueueItem → Stream → Stream × Bool
with_queues (created q) (created p) s =
    (record s { text_queue = q; audio_queue = p; is_live = true }, true)
with_queues _ _ s = (s, false)

-- The new response in the fields of the module.
unfoldable pub open_response : String → Stream → Stream
open_response response_id s =
    let (responses, r) = start_response response_id s.turn_id s.responses in
    record s {
      responses = responses;
      active_response_id = some r;
      barge_in = set_assistant_playing s.turn_id r s.barge_in;
      response_text = insert r "" s.response_text;
      estimated_ms = insert r 0 s.estimated_ms;
      audio_sequences = insert r 0 s.audio_sequences;
      first_audio_at = delete r s.first_audio_at;
      last_audio_sent_at = delete r s.last_audio_sent_at;
      transport_complete = remove_text r s.transport_complete;
      playback_done = remove_text r s.playback_done;
    }

unfoldable pub new_text_queue : Stream → InitResult TextQueueItem
new_text_queue s =
    Queue.init (config_of "llm_to_tts" DepthUnit.speak_ahead_ms s.settings.llm_to_tts text_weight s)

unfoldable pub new_audio_queue : Stream → InitResult AudioQueueItem
new_audio_queue s =
    Queue.init
      (config_of "tts_to_transport" DepthUnit.audio_ms s.settings.tts_to_transport audio_weight s)

-- `_run_llm_tts_transport` up to the creation of its tasks.
unfoldable pub begin_response : String → Stream → Stream × Bool
unfolding open_response new_text_queue new_audio_queue
begin_response response_id s =
    with_queues (new_text_queue s) (new_audio_queue s) (open_response response_id s)

-- The `finally` of `_run_llm_tts_transport`, and what a timeout does before it.
unfoldable pub end_response : Stream → Stream
end_response s = record s {
  text_queue = Queue.close s.text_queue;
  audio_queue = Queue.close s.audio_queue;
  is_live = false;
}

unfoldable pub response_timeout : Stream → Stream
response_timeout s = emit pipeline_stage_timeout s.current_stage none plain s

-- `_produce_llm`: its start, and the first token.
unfoldable pub start_llm : Stream → Stream
start_llm s = emit llm_started "llm" none plain (record s { current_stage = "llm" })

unfoldable pub first_token : Stream → Stream
first_token s = emit llm_first_token "llm" none plain s

-- A token, where `text` is all the tokens so far: `true` when the token may go to the queue.
unfoldable pub take_token : String → String → String → Stream → Stream × Bool
take_token turn_id r text s =
    let s' : Stream = record s {
      response_text = insert r text s.response_text;
      estimated_ms = insert r (estimate_speech_ms text s) s.estimated_ms;
    } in
    if is_stale_response turn_id r s'
    then (drop_stale_chunk "llm_to_tts" turn_id r s', false)
    else (s', true)

-- `put` on the queues, once the cork lets the task through.
unfoldable pub put_text : TextQueueItem → ℕ → Stream → Stream
put_text x now s = record s { text_queue = after s.text_queue (put_locked x now s.text_queue) }

unfoldable pub put_audio : AudioQueueItem → ℕ → Stream → Stream
put_audio x now s = record s { audio_queue = after s.audio_queue (put_locked x now s.audio_queue) }

-- The end of `_produce_llm`: the answer joins the conversation unless it was interrupted.
unfoldable pub finish_llm : String → String → String → Stream → Stream
finish_llm turn_id r response s = emit llm_final_response "llm" none plain (record s {
  response_text = insert r response s.response_text;
  estimated_ms = insert r (estimate_speech_ms response s) s.estimated_ms;
  response = response;
  conversation =
      if has_text r s.interrupted_ids
      then s.conversation
      else completed r turn_id response ∷ s.conversation;
})

-- `_expect_usage`
unfoldable pub expect_usage : String → String → Stream → Stream
expect_usage turn_id usage_type s = if str_eq turn_id "session" then s else record s {
  usage_expectations =
      insert turn_id (add_text usage_type (get_or [] (lookup turn_id s.usage_expectations)))
        s.usage_expectations;
}

unfoldable pub record_llm_usage : Stream → Stream
record_llm_usage s = emit usage_llm_recorded "llm" none plain s

-- After that event the usage is expected of the turn that is then the current one.
unfoldable pub expect_llm_usage : Stream → Stream
expect_llm_usage s =
    expect_usage s.turn_id "llm_output_tokens" (expect_usage s.turn_id "llm_input_tokens" s)

-- `_provider_failed`
unfoldable pub fail_provider : String → Stream → Stream
fail_provider stage s = emit provider_failed stage none plain s

-- `_consume_tts`: its start, an item taken, and its end.
unfoldable pub start_tts : Stream → Stream
start_tts s = emit tts_started "tts" none plain (record s { current_stage = "tts" })

unfoldable pub get_text : ℕ → Stream → Stream
get_text now s = record s { text_queue = after s.text_queue (get_locked now s.text_queue) }

-- A text item: `true` when its text joins the buffer.
unfoldable pub take_text : TextChunk → Stream → Stream × Bool
take_text x s =
    if is_stale_response x.turn_id x.response_id s
    then (drop_stale_chunk "tts" x.turn_id x.response_id s, false)
    else (s, true)

unfoldable pub finish_tts : Stream → Stream
finish_tts s = emit tts_completed "tts" none plain s

-- `_synthesize_phrase`: the test at its start, the first audio of a response, and a piece of audio,
-- which is `true` when it may go to the queue, under the next sequence number.
unfoldable pub start_phrase : String → String → Stream → Stream × Bool
start_phrase turn_id r s =
    if is_stale_response turn_id r s then (drop_stale_chunk "tts" turn_id r s, false) else (s, true)

unfoldable pub first_audio : String → ℕ → Stream → Stream
first_audio r now s =
    emit tts_first_audio "tts" none plain
      (record s { first_audio_at = insert_new r now s.first_audio_at })

unfoldable pub take_audio : String → String → ℕ → Stream → Stream × Bool
take_audio turn_id r sequence s =
    if is_stale_response turn_id r s
    then (drop_stale_chunk "tts_to_transport" turn_id r s, false)
    else (record s { audio_sequences = insert r (suc sequence) s.audio_sequences }, true)

unfoldable pub record_tts_usage : Stream → Stream
record_tts_usage s = emit usage_tts_recorded "tts" none plain s

unfoldable pub expect_tts_usage : Stream → Stream
expect_tts_usage s =
    expect_usage s.turn_id "tts_audio_seconds" (expect_usage s.turn_id "tts_characters" s)

-- `_finish_response_if_playback_done`
unfoldable pub finish_if_playback_done : String → Stream → Stream
finish_if_playback_done r s =
    let (responses, finished) = finish_response r s.responses in
    if not (has_text r s.transport_complete)
    then s
    else if not (has_text r s.playback_done)
    then s
    else if has_key r s.responses.cancelled
    then s
    else if finished
    then record s {
      responses = responses;
      active_response_id = responses.active_response_id;
      barge_in = (assistant_finished r s.barge_in).0;
    }
    else s

-- `_consume_transport` of response `r`: its start, an item taken, and what becomes of the item.
unfoldable pub start_transport : Stream → Stream
start_transport s = record s { current_stage = "transport" }

unfoldable pub get_audio : ℕ → Stream → Stream
get_audio now s = record s { audio_queue = after s.audio_queue (get_locked now s.audio_queue) }

-- The transport task has sent the whole response.
unfoldable pub complete_transport : String → Stream → Stream
unfolding finish_if_playback_done
complete_transport r s =
    finish_if_playback_done r (record s { transport_complete = add_text r s.transport_complete })

unfoldable pub send_item : String → AudioQueueItem → Stream → Stream
send_item r (end_of_audio e) s =
    emit transport_audio_sent "transport" none plain (
      finish_if_playback_done r (record s { transport_complete = add_text r s.transport_complete }))
send_item r (audio_chunk x) s =
    if is_stale_response x.turn_id x.response_id s || not (str_eq x.response_id r)
    then drop_stale_chunk "transport" x.turn_id x.response_id s
    else record s { sent = x ∷ s.sent }

-- After the transport has sent a chunk.
unfoldable pub note_sent : String → ℕ → Stream → Stream
note_sent r now s = record s {
  first_audio_at = insert_new r now s.first_audio_at;
  last_audio_sent_at = insert r now s.last_audio_sent_at;
}

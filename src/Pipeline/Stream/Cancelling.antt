-- ===== src/Pipeline/Stream/Cancelling.antt =====
-- stream_module.py: the cancellation of a response, and back pressure.
use voice_mesh.Prelude.{
  ℕ, ◌*◌, ◌/◌, max, min, String, Bool, true, false, ◌&&◌, Option, none, some, List, [], ◌∷◌,
  if◌then◌else◌, str_eq, truthy, has_text, add_text, text_prefix,
}
use Prim.Native.String.{count}
use voice_mesh.Prelude.Dict.{lookup, insert, get_or}
use voice_mesh.Events.Schemas.{
  pipeline_response_cancelled, pipeline_corked, pipeline_uncorked, pipeline_hard_limit_reached,
}
use voice_mesh.Pipeline.Queue.{after, flush_locked, BackpressureTransition}
use voice_mesh.Pipeline.Queue.Schedule.{removed}
use voice_mesh.Pipeline.Responses.{cancel_response}
use voice_mesh.Pipeline.BargeIn.{PlaybackCursor}
use voice_mesh.Pipeline.BargeIn.Cancelling.{begin_cancelling, finish_cancelled}
use voice_mesh.Pipeline.Stream.{
  Stream, TextQueueItem, text_chunk, end_of_text, AudioQueueItem, audio_chunk, end_of_audio,
  interrupted, plain, cancellation, emit,
}

-- `_cancel_response`: its first section, `true` when the response was not cancelled before.
unfoldable pub start_cancelling : String → String → Stream → Stream × Bool
start_cancelling r reason s =
    let (responses, fresh) = cancel_response r reason s.responses in
    let s' : Stream = record s {
      barge_in = (begin_cancelling r s.barge_in).0;
      responses = responses;
    } in
    if fresh
    then (record s' { active_response_id = responses.active_response_id }, true)
    else (s', false)

abbrev pub is_text_of : String → TextQueueItem → Bool
is_text_of r (text_chunk x) = str_eq x.response_id r
is_text_of r (end_of_text e) = false

abbrev pub is_audio_of : String → AudioQueueItem → Bool
is_audio_of r (audio_chunk x) = str_eq x.response_id r
is_audio_of r (end_of_audio e) = false

-- The flush of each live queue, with what it took out; a transition is reported in a section of its
-- own. The code takes both queues before the first flush: where a queue was closed or replaced since,
-- the code flushes one that no task reads any more.
unfoldable pub flush_text : String → ℕ → Stream → Stream × List TextQueueItem
flush_text r now s =
    let section = flush_locked (is_text_of r) now s.text_queue in
    if s.is_live
    then (record s { text_queue = after s.text_queue section }, removed section)
    else (s, [])

unfoldable pub flush_audio : String → ℕ → Stream → Stream × List AudioQueueItem
flush_audio r now s =
    let section = flush_locked (is_audio_of r) now s.audio_queue in
    if s.is_live
    then (record s { audio_queue = after s.audio_queue section }, removed section)
    else (s, [])

-- The cursor's position, where it is one of the response.
abbrev played_of : String → Option PlaybackCursor → ℕ
played_of r none = 0
played_of r (some c) = if str_eq c.response_id r then c.played_audio_ms else 0

abbrev last_sequence : Option PlaybackCursor → ℕ
last_sequence none = 0
last_sequence (some c) = c.last_played_sequence

-- `int(len(generated_text) * ratio)`, with the exact ratio min(played, estimated) / estimated.
abbrev pub spoken_chars : String → ℕ → ℕ → ℕ
spoken_chars text played estimated = count text * min played estimated / estimated

-- `_mark_response_interrupted`
unfoldable pub mark_interrupted : String → Stream → Stream
mark_interrupted r s =
    let generated = get_or "" (lookup r s.response_text) in
    let estimated = max (get_or 0 (lookup r s.estimated_ms)) 1 in
    let cursor = s.barge_in.playback_cursor in
    let turn = lookup r s.responses.response_turns in
    let spoken = text_prefix (spoken_chars generated (played_of r cursor) estimated) generated in
    if has_text r s.interrupted_ids then s else record s {
      interrupted_ids = add_text r s.interrupted_ids;
      last_interruption = some (record {
        response_id = r;
        turn_id = turn;
        generated_text = generated;
        spoken_text = spoken;
        played_audio_ms = played_of r cursor;
        last_played_sequence = last_sequence cursor;
      });
      conversation = interrupted r turn spoken generated ∷ s.conversation;
    }

-- The last section of `_cancel_response`, with the numbers of items flushed.
unfoldable pub finish_cancelling : String → String → ℕ → ℕ → ℕ → Stream → Stream
unfolding mark_interrupted
finish_cancelling r reason texts audios now s =
    let marked = mark_interrupted r s in
    emit pipeline_response_cancelled "barge_in" none (cancellation r reason texts audios)
      (record marked { barge_in = (finish_cancelled r now marked.barge_in).0 })

-- `_on_backpressure`, and the response that it cancels.
unfoldable pub on_backpressure : BackpressureTransition → Stream → Stream × Option String
on_backpressure t s =
    let s' : Stream = record s { corked_stages = insert t.stage t.corked s.corked_stages } in
    let event_type =
      if t.hard_limited
      then pipeline_hard_limit_reached
      else if t.corked
      then pipeline_corked
      else pipeline_uncorked in
    (
      emit event_type "backpressure" none plain s',
      if t.hard_limited
            && str_eq s.settings.backpressure_hard_limit_policy "cancel_response"
            && truthy s.active_response_id
          then s.active_response_id
          else none,
    )

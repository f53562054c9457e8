-- ===== src/Pipeline/Stream.antt =====
-- apps/api/pipeline/stream_module.py: StreamModule, the state of one call, and what its handlers share.
-- A handler is split at its awaits into sections, each a function on the state; the clock and uuid4
-- are arguments. Durations are whole milliseconds. Chunks and events do not repeat the call's id.
pub mod Speaking
pub mod Interrupting
pub mod Cancelling
pub mod Turns
pub mod Ending
pub mod Steps
pub mod Coherence
pub mod Silence
pub mod Once
pub mod Manifest
pub mod Confirming
pub mod Cancelled
mod Tests
use Prim.Native.String.{◌++◌, count}
use voice_mesh.Prelude.{
  ℕ, zero, suc, ◌+◌, ◌*◌, ◌/◌, String, Bool, true, false, not, Option, none, some, List, [], ◌∷◌,
  if◌then◌else◌, str_eq,
}
use voice_mesh.Prelude.Dict.{Dict}
use voice_mesh.Events.Schemas.{EventType, pipeline_stale_chunk_dropped}
use voice_mesh.Pipeline.Queue
use voice_mesh.Pipeline.Queue.{FlowControlledQueue}
use voice_mesh.Pipeline.Responses
use voice_mesh.Pipeline.Responses.{ResponseController, is_response_active, is_response_cancelled}
use voice_mesh.Pipeline.BargeIn
use voice_mesh.Pipeline.BargeIn.{BargeInCoordinator, BargeInSemantic}
use voice_mesh.Pipeline.TurnDetector.{Ratio}

pub record TextChunk : Type 0 where
  pub turn_id : String
  pub response_id : String
  pub sequence : ℕ
  pub text : String
  pub estimated_speech_ms : ℕ

pub record AudioChunk : Type 0 where
  pub turn_id : String
  pub response_id : String
  pub sequence : ℕ
  pub audio : List ℕ
  pub duration_ms : ℕ

pub record EndOfStream : Type 0 where
  pub turn_id : String
  pub response_id : String

pub data TextQueueItem : Type 0 where
  text_chunk : TextChunk → TextQueueItem
  end_of_text : EndOfStream → TextQueueItem

pub data AudioQueueItem : Type 0 where
  audio_chunk : AudioChunk → AudioQueueItem
  end_of_audio : EndOfStream → AudioQueueItem

-- The watermarks of a queue and its hard limit.
pub record QueueLimits : Type 0 where
  pub low_watermark : ℕ
  pub high_watermark : ℕ
  pub hard_limit : ℕ

-- The settings that the code below reads.
pub record Settings : Type 0 where
  pub llm_to_tts : QueueLimits
  pub tts_to_transport : QueueLimits
  pub flow_queue_max_items : ℕ
  pub speech_chars_per_second : ℕ
  pub tts_output_sample_rate : ℕ
  pub barge_in_confirmation_ms : ℕ
  pub barge_in_min_speech_ratio : Ratio
  pub barge_in_backend_confirmation_ms : ℕ
  pub barge_in_backend_min_speech_ratio : Ratio
  pub barge_in_backend_echo_grace_ms : ℕ
  pub barge_in_recent_response_grace_ms : ℕ
  pub barge_in_candidate_retention_ms : ℕ
  pub barge_in_backchannel_policy : String
  pub backpressure_hard_limit_policy : String
  pub vad_min_turn_audio_ms : ℕ
  pub vad_min_speech_frame_ratio : Ratio
  pub vad_min_transcribed_turn_audio_ms : ℕ
  pub billing_pricing_version : String

-- What the conversation keeps of an utterance.
pub data Message : Type 0 where
  user_said : String → String → Option BargeInSemantic → Bool → Message
  -- Response, turn and content.
  completed : String → String → String → Message
  -- Response, turn, spoken text and generated text.
  interrupted : String → Option String → String → String → Message

pub record Interruption : Type 0 where
  pub response_id : String
  pub turn_id : Option String
  pub generated_text : String
  pub spoken_text : String
  pub played_audio_ms : ℕ
  pub last_played_sequence : ℕ

pub record ExpectedTurn : Type 0 where
  pub turn_id : String
  pub expected_usage : List String

-- The payload of an event, as far as the theorems speak of it.
pub data Details : Type 0 where
  plain : Details
  about_response : String → String → Details
  -- Response, reason, and the numbers of text and audio items flushed.
  cancellation : String → String → ℕ → ℕ → Details
  usage_manifest : String → List ExpectedTurn → Details

pub record Event : Type 0 where
  pub event_type : EventType
  pub stage : String
  pub turn_id : String
  pub sequence_number : ℕ
  pub details : Details

pub record TurnStats : Type 0 where
  pub speech_duration_ms : ℕ
  pub total_duration_ms : ℕ
  pub speech_frame_ratio : Ratio

-- The fields of StreamModule and of its PipelineState. `published` and `sent` are what the producer
-- and the transport were handed; these and `conversation` have the latest first.
pub record Stream : Type 0 where
  pub call_id : String
  pub settings : Settings
  pub current_stage : String
  pub turn_id : String
  pub transcript : String
  pub response : String
  pub active_response_id : Option String
  pub sequence_number : ℕ
  pub corked_stages : Dict Bool
  pub responses : ResponseController
  pub barge_in : BargeInCoordinator
  -- The queues of the response that is made, and whether `_live_queues` names them.
  pub text_queue : FlowControlledQueue TextQueueItem
  pub audio_queue : FlowControlledQueue AudioQueueItem
  pub is_live : Bool
  pub turn_stats : Dict TurnStats
  pub conversation : List Message
  pub response_text : Dict String
  pub estimated_ms : Dict ℕ
  pub audio_sequences : Dict ℕ
  pub first_audio_at : Dict ℕ
  pub last_audio_sent_at : Dict ℕ
  pub transport_complete : List String
  pub playback_done : List String
  pub interrupted_ids : List String
  pub last_interruption : Option Interruption
  pub usage_expectations : Dict (List String)
  pub is_closed : Bool
  -- `_end_call` waits for the publication of the barrier.
  pub is_ending : Bool
  pub has_failed : Bool
  pub published : List Event
  pub sent : List AudioChunk

-- `turn_id or self.state.turn_id`
abbrev pub or_current : Option String → String → String
or_current none t = t
or_current (some u) t = if str_eq u "" then t else u

-- `emit`, with the event handed to the producer.
unfoldable pub emit : EventType → String → Option String → Details → Stream → Stream
emit event_type stage turn_id details s =
    let event : Event = record {
      event_type = event_type;
      stage = stage;
      turn_id = or_current turn_id s.turn_id;
      sequence_number = suc s.sequence_number;
      details = details;
    } in
    record s { sequence_number = suc s.sequence_number; published = event ∷ s.published }

unfoldable pub is_stale_response : String → String → Stream → Bool
is_stale_response turn_id response_id s = not (is_response_active response_id turn_id s.responses)

unfoldable pub stale_reason : String → String → Stream → String
stale_reason turn_id response_id s =
    if is_response_cancelled response_id s.responses
    then "response_cancelled"
    else if not (str_eq turn_id s.turn_id)
    then "stale_turn"
    else "stale_response"

-- `_drop_stale_chunk` with the reason that its callers give it.
unfoldable pub drop_stale_chunk : String → String → String → Stream → Stream
unfolding emit stale_reason
drop_stale_chunk stage turn_id response_id s =
    emit pipeline_stale_chunk_dropped stage none
      (about_response response_id (stale_reason turn_id response_id s)) s

-- `len(text) / speech_chars_per_second * 1000`, rounded down.
unfoldable pub estimate_speech_ms : String → Stream → ℕ
estimate_speech_ms text s = count text * 1000 / s.settings.speech_chars_per_second

abbrev pub no_stats : TurnStats
no_stats = record {
  speech_duration_ms = 0;
  total_duration_ms = 0;
  speech_frame_ratio = record { over = 0; under = 1 };
}

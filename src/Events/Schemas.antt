-- ===== src/Events/Schemas.antt =====
-- apps/api/events/schemas.py: the types of events and the topic that each goes to.
use voice_mesh.Prelude.{String, Bool, [], ◌∷◌, if◌then◌else◌}
use text.Mathlib.Text.{starts_with}
use voice_mesh.Prelude.Dict.{Dict}

pub data EventType : Type 0 where
  call_started call_ended call_failed : EventType
  vad_speech_started vad_speech_ended vad_noise_turn_ignored : EventType
  vad_provider_failed vad_state_changed : EventType
  user_barge_in_candidate user_barge_in_confirmed : EventType
  user_barge_in_rejected user_barge_in_classified : EventType
  stt_started stt_final_transcript : EventType
  llm_started llm_first_token llm_token llm_final_response : EventType
  tts_started tts_first_audio tts_audio_chunk tts_completed : EventType
  transport_audio_sent : EventType
  pipeline_corked pipeline_uncorked pipeline_hard_limit_reached : EventType
  pipeline_response_cancelled pipeline_stale_chunk_dropped : EventType
  pipeline_playback_stopped pipeline_stage_timeout : EventType
  provider_failed provider_fallback_selected : EventType
  duplicate_event_ignored postgres_write_failed postgres_recovered : EventType
  workflow_state_changed : EventType
  usage_stt_recorded usage_llm_recorded usage_tts_recorded : EventType
  usage_finalization_barrier : EventType
  billing_usage_recorded billing_finalized billing_adjustment_created : EventType
  tool_action_requested tool_action_create_started tool_action_accepted : EventType
  tool_action_cancel_requested tool_action_cancelled tool_action_cannot_cancel : EventType
  tool_action_completed tool_action_failed tool_action_timed_out : EventType
  webhook_delivery_requested webhook_delivered webhook_failed workflow_done : EventType

-- `str(event_type)`
unfoldable pub value : EventType → String
value call_started = "call.started"
value call_ended = "call.ended"
value call_failed = "call.failed"
value vad_speech_started = "vad.speech_started"
value vad_speech_ended = "vad.speech_ended"
value vad_noise_turn_ignored = "vad.noise_turn_ignored"
value vad_provider_failed = "vad.provider_failed"
value vad_state_changed = "vad.state_changed"
value user_barge_in_candidate = "user.barge_in_candidate"
value user_barge_in_confirmed = "user.barge_in_confirmed"
value user_barge_in_rejected = "user.barge_in_rejected"
value user_barge_in_classified = "user.barge_in_classified"
value stt_started = "stt.started"
value stt_final_transcript = "stt.final_transcript"
value llm_started = "llm.started"
value llm_first_token = "llm.first_token"
value llm_token = "llm.token"
value llm_final_response = "llm.final_response"
value tts_started = "tts.started"
value tts_first_audio = "tts.first_audio"
value tts_audio_chunk = "tts.audio_chunk"
value tts_completed = "tts.completed"
value transport_audio_sent = "transport.audio_sent"
value pipeline_corked = "pipeline.corked"
value pipeline_uncorked = "pipeline.uncorked"
value pipeline_hard_limit_reached = "pipeline.hard_limit_reached"
value pipeline_response_cancelled = "pipeline.response_cancelled"
value pipeline_stale_chunk_dropped = "pipeline.stale_chunk_dropped"
value pipeline_playback_stopped = "pipeline.playback_stopped"
value pipeline_stage_timeout = "pipeline.stage_timeout"
value provider_failed = "provider.failed"
value provider_fallback_selected = "provider.fallback_selected"
value duplicate_event_ignored = "duplicate_event.ignored"
value postgres_write_failed = "postgres.write_failed"
value postgres_recovered = "postgres.recovered"
value workflow_state_changed = "workflow.state_changed"
value usage_stt_recorded = "usage.stt"
value usage_llm_recorded = "usage.llm"
value usage_tts_recorded = "usage.tts"
value usage_finalization_barrier = "usage.finalization_barrier"
value billing_usage_recorded = "billing.usage_recorded"
value billing_finalized = "billing.finalized"
value billing_adjustment_created = "billing.adjustment_created"
value tool_action_requested = "tool.action.requested"
value tool_action_create_started = "tool.action.create_started"
value tool_action_accepted = "tool.action.accepted"
value tool_action_cancel_requested = "tool.action.cancel_requested"
value tool_action_cancelled = "tool.action.cancelled"
value tool_action_cannot_cancel = "tool.action.cannot_cancel"
value tool_action_completed = "tool.action.completed"
value tool_action_failed = "tool.action.failed"
value tool_action_timed_out = "tool.action.timed_out"
value webhook_delivery_requested = "webhook.delivery_requested"
value webhook_delivered = "webhook.delivered"
value webhook_failed = "webhook.failed"
value workflow_done = "workflow.done"

abbrev pub topic_by_event_prefix : Dict String
topic_by_event_prefix =
    ("call.", "call-events")
    ∷ ("vad.", "pipeline-events")
    ∷ ("user.", "pipeline-events")
    ∷ ("stt.", "pipeline-events")
    ∷ ("llm.", "pipeline-events")
    ∷ ("tts.", "pipeline-events")
    ∷ ("transport.", "pipeline-events")
    ∷ ("pipeline.", "pipeline-events")
    ∷ ("provider.", "provider-events")
    ∷ ("duplicate_event.", "pipeline-events")
    ∷ ("postgres.", "pipeline-events")
    ∷ ("workflow.", "call-events")
    ∷ ("usage.", "usage-events")
    ∷ ("billing.", "billing-events")
    ∷ ("tool.", "tool-events")
    ∷ ("webhook.", "webhook-events")
    ∷ []

-- The loop of `topic_for_event` over the table.
unfoldable pub topic_among : Dict String → String → String
topic_among [] text = "dead-letter-events"
topic_among ((prefix, topic) ∷ rest) text =
    let later = topic_among rest text in if starts_with text prefix then topic else later

unfoldable pub topic_for_event : EventType → String
unfolding topic_among value
topic_for_event event_type = topic_among topic_by_event_prefix (value event_type)

unfoldable pub is_usage : EventType → Bool
unfolding value
is_usage event_type = starts_with (value event_type) "usage."

-- ===== src/Events/Usage.antt =====
-- apps/api/db/projector.py: `_project_usage`, with the rollup of a call's usage.
use Prim.Native.String.{◌++◌}
use voice_mesh.Prelude.{
  ℕ, String, Bool, true, false, not, ◌&&◌, ◌||◌, Option, none, some, List, [], ◌∷◌, if◌then◌else◌,
  str_eq, has_text, snoc,
}
use voice_mesh.Prelude.Dict.{insert_new, update_row}
use voice_mesh.Prelude.Results.{Result, ok, err, key_error, value_error, ◌>>=◌}
use voice_mesh.Events.Schemas.{EventType, usage_finalization_barrier, is_usage}
use voice_mesh.Events.Offsets.{TopicPartition}
use voice_mesh.Events.Tables.{Measurement, PipelineEvent, Price, UsageRecord, Rollup, Database}
use voice_mesh.Events.Bill.{Settings, update_call_billing, enqueue_billing_event}
use voice_mesh.Events.Manifest.{get_or, project_usage_manifest}

-- `_normalized_usage_type`
unfoldable pub normalized_usage_type : String → String → String
normalized_usage_type usage_type stage =
    if str_eq usage_type "audio_minute"
    then (if str_eq stage "stt" then "stt_audio_seconds" else "call_duration_seconds")
    else if str_eq usage_type "input_token" || str_eq usage_type "cached_input_token"
    then "llm_input_tokens"
    else if str_eq usage_type "output_token"
    then "llm_output_tokens"
    else if str_eq usage_type "input_text_token"
    then "tts_characters"
    else if str_eq usage_type "output_audio_token"
    then "tts_audio_seconds"
    else usage_type

abbrev pub rollup_columns : List String
rollup_columns =
    "stt_audio_seconds" ∷ "llm_input_tokens" ∷ "llm_output_tokens" ∷ "tts_characters"
    ∷ "tts_audio_seconds" ∷ "telephony_seconds" ∷ []

abbrev pub is_barrier : EventType → Bool
is_barrier usage_finalization_barrier = true
is_barrier _ = false

-- `payload[key]`
abbrev pub required : Option String → Result String
required none = err key_error
required (some v) = ok v

module _ {N : Type 0} where
  has_usage : String → String → List (UsageRecord N) → Bool
  has_usage event_id usage_type [] = false
  has_usage event_id usage_type (u ∷ us) =
      (str_eq u.event_id event_id && str_eq u.usage_type usage_type)
      || has_usage event_id usage_type us

  -- The INSERT into `usage_records`, which a record of the same event and type stops.
  unfoldable pub add_usage_record : UsageRecord N → List (UsageRecord N) → List (UsageRecord N)
  unfolding has_usage
  add_usage_record u us = if has_usage u.event_id u.usage_type us then us else snoc us u

  unfoldable pub priced : Option (Price N) → (Price N → Database N) → Result (Database N)
  priced none f = err value_error
  priced (some price) f = ok (f price)

module _ {N : Type 0} (s : Settings N) where
  abbrev blank_rollup : String → String → Rollup N
  blank_rollup tenant_id assistant_id = record {
    tenant_id = tenant_id;
    assistant_id = assistant_id;
    stt_audio_seconds = s.numeric.nought;
    llm_input_tokens = s.numeric.nought;
    llm_output_tokens = s.numeric.nought;
    tts_characters = s.numeric.nought;
    tts_audio_seconds = s.numeric.nought;
    telephony_seconds = s.numeric.nought;
  }

  -- Adds to the column that the usage type names; another type changes nothing.
  unfoldable pub add_usage : String → N → Rollup N → Rollup N
  add_usage usage_type quantity r =
      let add = s.numeric.plus in
      if str_eq usage_type "stt_audio_seconds"
      then record r { stt_audio_seconds = add r.stt_audio_seconds quantity }
      else if str_eq usage_type "llm_input_tokens"
      then record r { llm_input_tokens = add r.llm_input_tokens quantity }
      else if str_eq usage_type "llm_output_tokens"
      then record r { llm_output_tokens = add r.llm_output_tokens quantity }
      else if str_eq usage_type "tts_characters"
      then record r { tts_characters = add r.tts_characters quantity }
      else if str_eq usage_type "tts_audio_seconds"
      then record r { tts_audio_seconds = add r.tts_audio_seconds quantity }
      else if str_eq usage_type "telephony_seconds"
      then record r { telephony_seconds = add r.telephony_seconds quantity }
      else r

  -- `_update_usage_rollup`: a new row starts from the columns' default of 0.
  unfoldable pub update_usage_rollup :
      String → String → String → String → N → Database N → Database N
  update_usage_rollup call_id tenant_id assistant_id usage_type quantity db =
      if not (has_text usage_type rollup_columns) then db else record db {
        call_usage_rollups =
            update_row call_id (add_usage usage_type quantity)
              (insert_new call_id (blank_rollup tenant_id assistant_id) db.call_usage_rollups);
      }

  -- The loop's body for a measurement with its price.
  unfoldable pub project_priced :
      PipelineEvent N → String → String → Measurement N → Price N → Database N → Database N
  project_priced event provider model m price db =
      let cost = s.numeric.times m.quantity price.unit_price_usd in
      let normalized = normalized_usage_type m.usage_type event.stage in
      let tenant_id = get_or event.payload.tenant_id "local-demo-tenant" in
      let assistant_id = get_or event.payload.assistant_id "local-demo-assistant" in
      let usage_event_id =
        s.uuid5 ("voicemesh:usage:" ++ (event.event_id ++ (":" ++ m.usage_type))) in
      update_usage_rollup event.call_id tenant_id assistant_id normalized m.quantity (record db {
        usage_records =
            add_usage_record
              (record {
                event_id = event.event_id;
                call_id = event.call_id;
                turn_id = event.turn_id;
                stage = event.stage;
                provider = provider;
                model = model;
                usage_type = m.usage_type;
                quantity = m.quantity;
                unit = price.unit;
                unit_price_usd = price.unit_price_usd;
                cost_usd = cost;
                estimated = m.estimated;
                pricing_version = price.pricing_version;
                metadata = event.payload.metadata;
                created_at = event.timestamp;
              })
              db.usage_records;
        call_usage_events =
            insert_new usage_event_id
              (record {
                event_id = usage_event_id;
                tenant_id = tenant_id;
                assistant_id = assistant_id;
                call_id = event.call_id;
                turn_id = event.turn_id;
                usage_type = normalized;
                provider = provider;
                model = model;
                quantity = m.quantity;
                unit = price.unit;
                source_usage_type = m.usage_type;
                cost_usd = cost;
                created_at = event.timestamp;
              })
              db.call_usage_events;
      })

  -- The loop over the measurements.
  unfoldable pub project_measurements :
      PipelineEvent N → String → String → List (Measurement N) → Database N → Result (Database N)
  unfolding priced
  project_measurements event provider model [] db = ok db
  project_measurements event provider model (m ∷ ms) db = do
    db' ←
        priced (db.pricing_catalog provider model m.usage_type)
          (λ price. project_priced event provider model m price db)
    project_measurements event provider model ms db'

  -- `_project_usage`
  unfoldable pub project_usage :
      PipelineEvent N → TopicPartition → ℕ → Database N → Result (Database N)
  project_usage event source offset db =
      if not (is_usage event.event_type)
      then ok db
      else if is_barrier event.event_type
      then ok (project_usage_manifest event source offset db)
      else do
        provider ← required event.payload.provider
        model ← required event.payload.model
        db' ← project_measurements event provider model event.payload.measurements db
        (billing, db'') ← update_call_billing s event.call_id none false db'
        ok (enqueue_billing_event s event billing db'')

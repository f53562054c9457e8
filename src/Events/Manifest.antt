-- ===== src/Events/Manifest.antt =====
-- apps/api/db/projector.py: `_project_usage_manifest`, with the usage that it leads to expect.
use text.Mathlib.Text.{starts_with}
use voice_mesh.Prelude.{
  ℕ, String, Bool, false, ◌&&◌, ◌||◌, Option, none, some, List, [], ◌∷◌, if◌then◌else◌, str_eq,
  snoc,
}
use voice_mesh.Prelude.Dict.{insert, has_key, update_row}
use voice_mesh.Events.Offsets.{TopicPartition}
use voice_mesh.Events.Tables.{ExpectedTurn, PipelineEvent, Manifest, Expectation, Database}

-- `payload.get(key, default)`
abbrev pub get_or : Option String → String → String
get_or none d = d
get_or (some s) d = s

-- `_stage_for_usage_type`
unfoldable pub stage_for_usage_type : String → String
stage_for_usage_type usage_type =
    if starts_with usage_type "stt_"
    then "stt"
    else if starts_with usage_type "llm_"
    then "llm"
    else if starts_with usage_type "tts_"
    then "tts"
    else if starts_with usage_type "telephony_"
    then "telephony"
    else "usage"

-- The INSERT of one expectation, and those of a turn; a turn without an id is passed over.
has_expectation : Expectation → List Expectation → Bool
has_expectation e [] = false
has_expectation e (x ∷ xs) =
    (str_eq x.call_id e.call_id && str_eq x.turn_id e.turn_id && str_eq x.usage_type e.usage_type)
    || has_expectation e xs

unfoldable pub add_expectation : Expectation → List Expectation → List Expectation
unfolding has_expectation
add_expectation e es = if has_expectation e es then es else snoc es e

abbrev first_or : Option String → Option String → Option String
first_or none o = o
first_or (some t) o = some t

module _ {N : Type 0} where
  unfoldable pub expect_usage :
      PipelineEvent N → String → List String → List Expectation → List Expectation
  expect_usage event turn_id [] es = es
  expect_usage event turn_id (t ∷ ts) es = expect_usage event turn_id ts (
      add_expectation
        (record {
          call_id = event.call_id;
          tenant_id = get_or event.payload.tenant_id "local-demo-tenant";
          assistant_id = get_or event.payload.assistant_id "local-demo-assistant";
          turn_id = turn_id;
          usage_type = t;
          source_stage = stage_for_usage_type t;
        })
        es)

  unfoldable pub expect_turns :
      PipelineEvent N → List ExpectedTurn → List Expectation → List Expectation
  expect_turns event [] es = es
  expect_turns event (turn ∷ turns) es = expect_turns event turns (
      if str_eq turn.turn_id "" then es else expect_usage event turn.turn_id turn.expected_usage es)

  -- `_project_usage_manifest`
  unfoldable pub project_usage_manifest :
      PipelineEvent N → TopicPartition → ℕ → Database N → Database N
  project_usage_manifest event source offset db =
      let new : Manifest = record {
        tenant_id = get_or event.payload.tenant_id "local-demo-tenant";
        assistant_id = get_or event.payload.assistant_id "local-demo-assistant";
        event_id = event.event_id;
        barrier = source;
        barrier_offset = offset;
        expected_turns = event.payload.expected_turns;
        trace_id = event.trace_id;
        created_at = event.timestamp;
      } in
      record db {
        call_usage_manifests =
            if has_key event.call_id db.call_usage_manifests
            then update_row event.call_id
                (λ old. record old {
                  event_id = event.event_id;
                  barrier = source;
                  barrier_offset = offset;
                  expected_turns = event.payload.expected_turns;
                  trace_id = first_or event.trace_id old.trace_id;
                })
                db.call_usage_manifests
            else insert event.call_id new db.call_usage_manifests;
        call_usage_expectations =
            expect_turns event event.payload.expected_turns db.call_usage_expectations;
      }

-- ===== src/Events/Samples.antt =====
-- Events, tables and settings for the tests, where an amount is a natural number.
use Prim.Native.String.{◌++◌}
use voice_mesh.Prelude.{ℕ, ◌+◌, ◌*◌, ◌/◌, String, false, none, some, [], ◌∷◌}
use voice_mesh.Events.Schemas.{EventType}
use voice_mesh.Events.Offsets.{TopicPartition}
use voice_mesh.Events.Tables.{Numeric, Payload, PipelineEvent, Database}
use voice_mesh.Events.Bill.{Settings}

abbrev pub numeric : Numeric ℕ
numeric = record { nought = 0; plus = λ a b. a + b; times = λ a b. a * b; per_minute = λ a. a / 60 }

abbrev pub settings : Settings ℕ
settings = record {
  numeric = numeric;
  platform_rate = 3;
  billing_pricing_version = "v1";
  uuid5 = λ name. "uuid5:" ++ name;
}

abbrev pub payload : Payload ℕ
payload = record {
  providers = ("llm", "openai") ∷ [];
  models = [];
  agent = "{}";
  tenant_id = none;
  assistant_id = none;
  final_response = none;
  duration_seconds = none;
  error = none;
  reason = none;
  latency_ms = some 12;
  queue_depth = 0;
  provider = some "openai";
  model = some "m";
  measurements = record { usage_type = "input_token"; quantity = 7; estimated = false } ∷ [];
  expected_turns = [];
  metadata = "{}";
}

abbrev pub event : String → EventType → PipelineEvent ℕ
event id event_type = record {
  event_id = id;
  call_id = "c1";
  turn_id = "t1";
  event_type = event_type;
  stage = "llm";
  timestamp = 5;
  sequence_number = 1;
  idempotency_key = "key:" ++ id;
  payload = payload;
  trace_id = none;
}

abbrev pub calls_0 : TopicPartition
calls_0 = record { topic = "call-events"; partition = 0 }

abbrev pub usage_0 : TopicPartition
usage_0 = record { topic = "usage-events"; partition = 0 }

abbrev pub empty : Database ℕ
empty = record {
  pricing_catalog = λ provider model usage_type.
      some (record { unit = "token"; unit_price_usd = 2; pricing_version = "v1" });
  final_call_billing_records = [];
  idempotency_keys = [];
  call_events = [];
  calls = [];
  pipeline_metrics = [];
  usage_records = [];
  call_usage_events = [];
  call_usage_rollups = [];
  call_billing = [];
  call_usage_manifests = [];
  call_usage_expectations = [];
  outbox_events = [];
  projection_watermarks = [];
}

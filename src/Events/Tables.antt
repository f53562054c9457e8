-- ===== src/Events/Tables.antt =====
-- apps/api/db/migrations/001_init.sql and apps/api/events/schemas.py: a pipeline event with the parts
-- of its payload that the projector reads, and the tables that it writes. Left out are the tables' own
-- ids and the columns that hold the time of the write. Amounts are of a type of exact numbers, `N`.
use voice_mesh.Prelude.{ℕ, String, Bool, Option, List}
use voice_mesh.Prelude.Dict.{Dict}
use voice_mesh.Events.Schemas.{EventType}
use voice_mesh.Events.Offsets.{TopicPartition, Offsets}

-- The arithmetic of Decimal and of Postgres's numeric that the projector relies on.
pub record Numeric (N : Type 0) : Type 0 where
  pub nought : N
  pub plus : N → N → N
  pub times : N → N → N
  pub per_minute : N → N

pub record Measurement (N : Type 0) : Type 0 where
  pub usage_type : String
  pub quantity : N
  pub estimated : Bool

pub record ExpectedTurn : Type 0 where
  pub turn_id : String
  pub expected_usage : List String

-- `metadata` stands for the JSON text of the keys that are not named here.
pub record Payload (N : Type 0) : Type 0 where
  pub providers : Dict String
  pub models : Dict String
  pub agent : String
  pub tenant_id : Option String
  pub assistant_id : Option String
  pub final_response : Option String
  pub duration_seconds : Option N
  pub error : Option String
  pub reason : Option String
  pub latency_ms : Option ℕ
  pub queue_depth : ℕ
  pub provider : Option String
  pub model : Option String
  pub measurements : List (Measurement N)
  pub expected_turns : List ExpectedTurn
  pub metadata : String

pub record PipelineEvent (N : Type 0) : Type 0 where
  pub event_id : String
  pub call_id : String
  pub turn_id : String
  pub event_type : EventType
  pub stage : String
  pub timestamp : ℕ
  pub sequence_number : ℕ
  pub idempotency_key : String
  pub payload : Payload N
  pub trace_id : Option String

pub record ConsumedEvent (N : Type 0) : Type 0 where
  pub event : PipelineEvent N
  pub source : TopicPartition
  pub offset : ℕ

pub record Call : Type 0 where
  pub status : String
  pub started_at : Option ℕ
  pub ended_at : Option ℕ
  pub current_stage : String
  pub corked : Bool
  pub cork_reason : Option String
  pub stt_provider : String
  pub llm_provider : String
  pub tts_provider : String
  pub stt_model : Option String
  pub llm_model : Option String
  pub tts_model : Option String
  pub organization_id : Option String
  pub agent_id : Option String
  pub agent_snapshot : String
  pub final_summary : Option String
  pub error : Option String

pub record PipelineMetric : Type 0 where
  pub call_id : String
  pub turn_id : String
  pub stage : String
  pub latency_ms : ℕ
  pub queue_depth : ℕ
  pub corked : Bool
  pub provider : Option String

pub record Price (N : Type 0) : Type 0 where
  pub unit : String
  pub unit_price_usd : N
  pub pricing_version : String

pub record UsageRecord (N : Type 0) : Type 0 where
  pub event_id : String
  pub call_id : String
  pub turn_id : String
  pub stage : String
  pub provider : String
  pub model : String
  pub usage_type : String
  pub quantity : N
  pub unit : String
  pub unit_price_usd : N
  pub cost_usd : N
  pub estimated : Bool
  pub pricing_version : String
  pub metadata : String
  pub created_at : ℕ

pub record UsageEvent (N : Type 0) : Type 0 where
  pub event_id : String
  pub tenant_id : String
  pub assistant_id : String
  pub call_id : String
  pub turn_id : String
  pub usage_type : String
  pub provider : String
  pub model : String
  pub quantity : N
  pub unit : String
  pub source_usage_type : String
  pub cost_usd : N
  pub created_at : ℕ

pub record Rollup (N : Type 0) : Type 0 where
  pub tenant_id : String
  pub assistant_id : String
  pub stt_audio_seconds : N
  pub llm_input_tokens : N
  pub llm_output_tokens : N
  pub tts_characters : N
  pub tts_audio_seconds : N
  pub telephony_seconds : N

pub record Billing (N : Type 0) : Type 0 where
  pub call_duration_seconds : N
  pub provider_cost_usd : N
  pub platform_fee_usd : N
  pub total_cost_usd : N
  pub currency : String
  pub status : String
  pub pricing_version : String

pub record Manifest : Type 0 where
  pub tenant_id : String
  pub assistant_id : String
  pub event_id : String
  pub barrier : TopicPartition
  pub barrier_offset : ℕ
  pub expected_turns : List ExpectedTurn
  pub trace_id : Option String
  pub created_at : ℕ

pub record Expectation : Type 0 where
  pub call_id : String
  pub tenant_id : String
  pub assistant_id : String
  pub turn_id : String
  pub usage_type : String
  pub source_stage : String

-- The event `billing.usage_recorded` that the outbox holds.
pub record BillingEvent (N : Type 0) : Type 0 where
  pub call_id : String
  pub turn_id : String
  pub timestamp : ℕ
  pub sequence_number : ℕ
  pub idempotency_key : String
  pub source_event_id : String
  pub provider_cost_usd : N
  pub platform_fee_usd : N
  pub total_cost_usd : N
  pub currency : String
  pub status : String
  pub trace_id : Option String

pub record OutboxEvent (N : Type 0) : Type 0 where
  pub topic : String
  pub key : String
  pub payload : BillingEvent N

-- The price catalogue is read only here: it is the answer of the query for the latest price.
pub record Database (N : Type 0) : Type 0 where
  pub pricing_catalog : String → String → String → Option (Price N)
  pub final_call_billing_records : List String
  pub idempotency_keys : List String
  pub call_events : Dict (PipelineEvent N)
  pub calls : Dict Call
  pub pipeline_metrics : List PipelineMetric
  pub usage_records : List (UsageRecord N)
  pub call_usage_events : Dict (UsageEvent N)
  pub call_usage_rollups : Dict (Rollup N)
  pub call_billing : Dict (Billing N)
  pub call_usage_manifests : Dict Manifest
  pub call_usage_expectations : List Expectation
  pub outbox_events : Dict (OutboxEvent N)
  pub projection_watermarks : Dict Offsets

-- ===== src/Worker/Activities.antt =====
-- apps/worker/activities.py: the activities that decide on a call's bill. An amount is a whole number
-- of 10⁻¹⁰ USD, the scale of the column cost_usd, and a duration one of milliseconds.
pub mod Costs
pub mod Totals
pub mod Readiness
pub mod Adjusting
mod Tests
use voice_mesh.Prelude.{ℕ, String, Bool, Option, List}
use voice_mesh.Prelude.Dict.{Dict}
use voice_mesh.Prelude.Int.{ℤ}
use voice_mesh.Events.Tables.{Database}

pub record FinalBilling : Type 0 where
  pub tenant_id : String
  pub assistant_id : String
  pub started_at : Option ℕ
  pub ended_at : Option ℕ
  pub billable_seconds : ℕ
  pub platform_cost_cents : ℕ
  pub stt_cost_cents : ℕ
  pub llm_cost_cents : ℕ
  pub tts_cost_cents : ℕ
  pub telephony_cost_cents : ℕ
  pub total_cost_cents : ℕ
  pub pricing_version : String
  pub status : String
  pub warnings : List String
  pub finalized_at : Option ℕ

-- Column `status` is always CREATED.
pub record Adjustment : Type 0 where
  pub call_id : String
  pub previous_total_cost_cents : ℕ
  pub recomputed_total_cost_cents : ℕ
  pub delta_cost_cents : ℤ
  pub reason : String
  pub source_event_id : Option String

-- The projector's tables, and the two tables that only these activities write.
pub record Store : Type 0 where
  pub projected : Database ℕ
  pub final_billing : Dict FinalBilling
  pub adjustments : Dict Adjustment

-- The keys of the input that the activities read.
pub record BillingInput : Type 0 where
  pub call_id : String
  pub tenant_id : String
  pub assistant_id : String
  pub pricing_version : String
  pub consumer_group : String
  pub required_usage_types : List String
  pub missing_usage_types : List String
  pub missing_expectations : List String
  pub manifest_missing : Bool
  pub projection_caught_up : Bool
  pub status : String
  pub source_event_id : Option String
  pub reason : String

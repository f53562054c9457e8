-- ===== src/Worker/Activities/Readiness.antt =====
-- apps/worker/activities.py: `load_billing_readiness`, on the tables that the projector writes. A set of
-- texts is a list; the order in which rows come back is left open.
use Prim.Native.String.{◌++◌}
use mathlib.Core.List.{◌++◌ as append}
use voice_mesh.Prelude.{
  ℕ, ◌≤◌, ◌≡◌, ◌↔◌, refl, String, Bool, true, false, not, ◌&&◌, ◌||◌, Option, none, some, List, [],
  ◌∷◌, arith, if◌then◌else◌, str_eq, has_text, leb, le→leb, is_some,
}
use voice_mesh.Prelude.Dict.{Dict, lookup}
use voice_mesh.Events.Offsets.{offset_at, Offsets}
use voice_mesh.Events.Tables.{Database, Expectation, UsageEvent, UsageRecord, Manifest}
use voice_mesh.Worker.Activities.{BillingInput}

-- `JOIN call_usage_events`: an event of the same call, turn and type.
abbrev pub is_projected : Expectation → Dict (UsageEvent ℕ) → Bool
is_projected e [] = false
is_projected e ((k, u) ∷ us) =
    (str_eq u.call_id e.call_id && (str_eq u.turn_id e.turn_id && str_eq u.usage_type e.usage_type))
    || is_projected e us

-- The expectations of a call that no usage event meets, as `turn:type`.
unfoldable pub missing_expectations : String → Dict (UsageEvent ℕ) → List Expectation → List String
missing_expectations call_id us [] = []
missing_expectations call_id us (e ∷ es) =
    let rest = missing_expectations call_id us es in
    if str_eq e.call_id call_id && not (is_projected e us)
    then (e.turn_id ++ (":" ++ e.usage_type)) ∷ rest
    else rest

-- The CASE on a recorded usage type.
unfoldable pub canonical_usage_type : String → String
canonical_usage_type t =
    if str_eq t "audio_minute"
    then "stt_audio_seconds"
    else if str_eq t "input_token" || str_eq t "cached_input_token"
    then "llm_input_tokens"
    else if str_eq t "output_token"
    then "llm_output_tokens"
    else if str_eq t "output_audio_token"
    then "tts_audio_seconds"
    else if str_eq t "input_text_token"
    then "tts_characters"
    else t

abbrev event_types : String → Dict (UsageEvent ℕ) → List String
event_types call_id [] = []
event_types call_id ((k, u) ∷ us) =
    let rest = event_types call_id us in
    if str_eq u.call_id call_id then u.usage_type ∷ rest else rest

abbrev record_types : String → List (UsageRecord ℕ) → List String
record_types call_id [] = []
record_types call_id (u ∷ us) =
    let rest = record_types call_id us in
    if str_eq u.call_id call_id then canonical_usage_type u.usage_type ∷ rest else rest

-- The UNION of the two queries.
unfoldable pub present_usage_types : String → Database ℕ → List String
unfolding canonical_usage_type
present_usage_types call_id db =
    append (event_types call_id db.call_usage_events) (record_types call_id db.usage_records)

-- `required - present`
unfoldable pub without : List String → List String → List String
without present [] = []
without present (t ∷ ts) =
    let rest = without present ts in if has_text t present then rest else t ∷ rest

-- `projection_watermarks` of a group at the barrier's partition.
abbrev pub watermark_of : Option Offsets → Manifest → Option ℕ
watermark_of none m = none
watermark_of (some offsets) m = offset_at m.barrier offsets

abbrev pub reaches : Option ℕ → ℕ → Bool
reaches none n = false
reaches (some w) n = leb n w

abbrev pub caught_up : String → Option Manifest → Database ℕ → Bool
caught_up group none db = false
caught_up group (some m) db =
    reaches (watermark_of (lookup group db.projection_watermarks) m) m.barrier_offset

-- What the billing workflow reads of the reply.
pub record BillingReadiness : Type 0 where
  pub manifest_present : Bool
  pub projection_caught_up : Bool
  pub present_usage_types : List String
  pub missing_usage_types : List String
  pub missing_expectations : List String

unfoldable pub load_billing_readiness : BillingInput → Database ℕ → BillingReadiness
unfolding missing_expectations without present_usage_types
load_billing_readiness i db =
    let manifest = lookup i.call_id db.call_usage_manifests in
    let present = present_usage_types i.call_id db in
    record {
      manifest_present = is_some manifest;
      projection_caught_up = caught_up i.consumer_group manifest db;
      present_usage_types = present;
      missing_usage_types = without present i.required_usage_types;
      missing_expectations =
          missing_expectations i.call_id db.call_usage_events db.call_usage_expectations;
    }

abbrev pub is_empty : List String → Bool
is_empty [] = true
is_empty (_ ∷ _) = false

-- The test of BillingFinalizationWorkflow on the reply.
abbrev pub is_ready : BillingReadiness → Bool
is_ready r =
    r.manifest_present
    && (r.projection_caught_up
        && (is_empty r.missing_usage_types && is_empty r.missing_expectations))

-- Every expectation of the call has its usage event.
abbrev pub AllProjected : String → Dict (UsageEvent ℕ) → List Expectation → Type 0
AllProjected call_id us [] = Unit {0}
AllProjected call_id us (e ∷ es) =
    ((str_eq e.call_id call_id && not (is_projected e us)) ≡ false) × AllProjected call_id us es

abbrev pub AllPresent : List String → List String → Type 0
AllPresent present [] = Unit {0}
AllPresent present (t ∷ ts) = (has_text t present ≡ true) × AllPresent present ts

missing-AllProjected :
    (call_id : String) (us : Dict (UsageEvent ℕ)) (es : List Expectation)
    → is_empty (missing_expectations call_id us es) ≡ true
    → AllProjected call_id us es
unfolding missing_expectations
missing-AllProjected call_id us [] h = tt
missing-AllProjected call_id us (e ∷ es) h = ground (arith, missing-AllProjected call_id us es)

AllProjected-missing :
    (call_id : String) (us : Dict (UsageEvent ℕ)) (es : List Expectation)
    → AllProjected call_id us es
    → is_empty (missing_expectations call_id us es) ≡ true
unfolding missing_expectations
AllProjected-missing call_id us [] h = refl
AllProjected-missing call_id us (e ∷ es) h = ground (arith, AllProjected-missing call_id us es)

without-AllPresent :
    (present ts : List String) → is_empty (without present ts) ≡ true → AllPresent present ts
unfolding without
without-AllPresent present [] h = tt
without-AllPresent present (t ∷ ts) h = ground (arith, without-AllPresent present ts)

AllPresent-without :
    (present ts : List String) → AllPresent present ts → is_empty (without present ts) ≡ true
unfolding without
AllPresent-without present [] h = refl
AllPresent-without present (t ∷ ts) h = ground (arith, AllPresent-without present ts)

-- What the bill of a call waits for: the projector has passed the call's barrier, each expected usage
-- has been projected, and each required type is present.
pub record IsComplete (i : BillingInput) (db : Database ℕ) (m : Manifest) (w : ℕ) : Type 0 where
  pub manifest : lookup i.call_id db.call_usage_manifests ≡ some m
  pub watermark : watermark_of (lookup i.consumer_group db.projection_watermarks) m ≡ some w
  pub passed : m.barrier_offset ≤ w
  pub projected : AllProjected i.call_id db.call_usage_events db.call_usage_expectations
  pub present : AllPresent (present_usage_types i.call_id db) i.required_usage_types

reached : (o : Option ℕ) (n : ℕ) → reaches o n ≡ true → (w : ℕ) × (o ≡ some w) × (n ≤ w)
reached none n h = cc
reached (some w) n h = (w, refl, ground arith)

ready-Complete :
    (i : BillingInput) (db : Database ℕ) (o : Option Manifest)
    → lookup i.call_id db.call_usage_manifests ≡ o
    → caught_up i.consumer_group o db ≡ true
    → AllProjected i.call_id db.call_usage_events db.call_usage_expectations
    → AllPresent (present_usage_types i.call_id db) i.required_usage_types
    → (m : Manifest) × (w : ℕ) × IsComplete i db m w
ready-Complete i db none e h p q = cc
ready-Complete i db (some m) e h p q =
    let (w, at, passed) =
      reached (watermark_of (lookup i.consumer_group db.projection_watermarks) m) m.barrier_offset
        h in
    (m, w, record { manifest = e; watermark = at; passed = passed; projected = p; present = q })

Complete-caught_up :
    (i : BillingInput) (db : Database ℕ) (m : Manifest) (w : ℕ)
    → IsComplete i db m w
    → caught_up i.consumer_group (some m) db ≡ true
Complete-caught_up i db m w c = rw c.watermark (le→leb m.barrier_offset w c.passed)

complete-ready :
    (i : BillingInput) (db : Database ℕ) (m : Manifest) (w : ℕ)
    → IsComplete i db m w
    → is_ready (load_billing_readiness i db) ≡ true
unfolding load_billing_readiness
complete-ready i db m w c =
    rw
      (
        c.manifest,
        Complete-caught_up i db m w c,
        AllPresent-without (present_usage_types i.call_id db) i.required_usage_types c.present,
        AllProjected-missing i.call_id db.call_usage_events db.call_usage_expectations c.projected,
      )
      refl

all_true : (a b c d : Bool) → (a && (b && (c && d))) ≡ true → (b ≡ true) × (c ≡ true) × (d ≡ true)
all_true a b c d h = ground arith

ready-IsComplete :
    (i : BillingInput) (db : Database ℕ)
    → is_ready (load_billing_readiness i db) ≡ true
    → (m : Manifest) × (w : ℕ) × IsComplete i db m w
unfolding load_billing_readiness
ready-IsComplete i db h =
    let r = load_billing_readiness i db in
    let t =
      all_true r.manifest_present r.projection_caught_up (is_empty r.missing_usage_types)
        (is_empty r.missing_expectations) h in
    ready-Complete i db (lookup i.call_id db.call_usage_manifests) refl t.0
      (missing-AllProjected i.call_id db.call_usage_events db.call_usage_expectations t.2)
      (without-AllPresent (present_usage_types i.call_id db) i.required_usage_types t.1)

-- The reply tells the workflow to finalize exactly when the call's manifest is there, the projector's
-- watermark has reached the barrier, each expected usage has its event, and each required type is there.
pub load_billing_readiness_exact :
    (i : BillingInput) (db : Database ℕ)
    → (is_ready (load_billing_readiness i db) ≡ true)
      ↔ ((m : Manifest) × (w : ℕ) × IsComplete i db m w)
load_billing_readiness_exact i db = (ready-IsComplete i db, λ p. complete-ready i db p.0 p.1 p.2)

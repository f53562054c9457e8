-- ===== src/Analytics/Normalizer/Codes.antt =====
-- apps/api/analytics/clickhouse/normalizer.py: the status and the reason of a row, as code points.
use voice_mesh.Prelude.{
  ℕ, String, Bool, true, false, not, ◌&&◌, ◌||◌, Option, none, some, List, [], ◌∷◌, if◌then◌else◌,
  leb, ◌==◌, str_eq, take,
}
use voice_mesh.Prelude.Lower.{codes, lower_code, is_space, contains}
use voice_mesh.Events.Schemas.{EventType}
use voice_mesh.Analytics.Normalizer.{
  Value, null, boolean, number, text, bytes, array, object, nil, item, Fields, end, field, get,
}

-- `[a-z0-9]`
abbrev pub is_word_code : ℕ → Bool
is_word_code c = (leb b'a' c && leb c b'z') || (leb b'0' c && leb c b'9')

-- `re.sub(r"[^a-z0-9]+", "_", ...)`; `gap` says that such a run has begun.
unfoldable pub collapse : Bool → List ℕ → List ℕ
collapse gap [] = []
collapse gap (c ∷ cs) =
    let word = c ∷ collapse false cs in
    let rest = collapse true cs in
    if is_word_code c then word else if gap then rest else b'_' ∷ rest

abbrev pub is_underscore : ℕ → Bool
is_underscore c = c == b'_'

abbrev is_nil : List ℕ → Bool
is_nil [] = true
is_nil (_ ∷ _) = false

-- `strip`, at the start and at the end.
unfoldable pub strip_start : (ℕ → Bool) → List ℕ → List ℕ
strip_start p [] = []
strip_start p (c ∷ cs) = let rest = strip_start p cs in if p c then rest else c ∷ cs

unfoldable pub strip_end : (ℕ → Bool) → List ℕ → List ℕ
strip_end p [] = []
strip_end p (c ∷ cs) = let rest = strip_end p cs in if is_nil rest && p c then [] else c ∷ rest

abbrev pub strip : (ℕ → Bool) → List ℕ → List ℕ
strip p cs = strip_end p (strip_start p cs)

abbrev pub lowered : List ℕ → List ℕ
lowered [] = []
lowered (c ∷ cs) = lower_code c ∷ lowered cs

abbrev pub or_unknown : List ℕ → List ℕ
or_unknown [] = codes "unknown"
or_unknown (c ∷ cs) = c ∷ cs

-- `_stable_code`
unfoldable pub stable_code : String → List ℕ
unfolding collapse strip_start strip_end
stable_code value =
    or_unknown
      (take 80 (strip is_underscore (collapse false (lowered (strip is_space (codes value))))))

-- `_stable_error_code`
unfoldable pub stable_error_code : String → List ℕ
stable_error_code message =
    let lowered_message = lowered (codes message) in
    let has : String → Bool = λ part. contains (codes part) lowered_message in
    if has "timeout"
    then codes "timeout"
    else if has "rate" && has "limit"
    then codes "rate_limited"
    else if has "auth" || has "api key" || has "credential"
    then codes "auth_failed"
    else if has "connect" || has "network"
    then codes "network_error"
    else codes "provider_error"

-- The entries of the mapping of `_status_for`, and the empty text.
unfoldable pub status_of : EventType → String
status_of EventType.call_started = "started"
status_of EventType.call_ended = "completed"
status_of EventType.call_failed = "failed"
status_of EventType.billing_finalized = "finalized"
status_of EventType.pipeline_corked = "corked"
status_of EventType.pipeline_uncorked = "uncorked"
status_of EventType.pipeline_response_cancelled = "cancelled"
status_of EventType.pipeline_stale_chunk_dropped = "dropped"
status_of EventType.user_barge_in_candidate = "candidate"
status_of EventType.user_barge_in_confirmed = "confirmed"
status_of EventType.user_barge_in_rejected = "rejected"
status_of EventType.vad_noise_turn_ignored = "ignored"
status_of EventType.provider_failed = "failed"
status_of EventType.webhook_delivered = "delivered"
status_of EventType.webhook_failed = "failed"
status_of EventType.workflow_done = "done"
status_of _ = ""

-- `str` of what is no text, and the test that a number is zero.
module _ (str : Value → String) (is_zero : String → Bool) where
  abbrev pub to_text : Value → String
  to_text (text s) = s
  to_text v = str v

  -- `bool(value)`, and of `payload.get(key)`.
  abbrev pub is_truthy : Value → Bool
  is_truthy null = false
  is_truthy (boolean b) = b
  is_truthy (number n) = not (is_zero n)
  is_truthy (text s) = not (str_eq s "")
  is_truthy (bytes s) = not (str_eq s "")
  is_truthy (array nil) = false
  is_truthy (array (item v xs)) = true
  is_truthy (object end) = false
  is_truthy (object (field k v fs)) = true

  abbrev pub truthy_text : Option Value → Option String
  truthy_text none = none
  truthy_text (some v) = if is_truthy v then some (to_text v) else none

  abbrev pub explicit_or : Option String → List ℕ → List ℕ
  explicit_or none cs = cs
  explicit_or (some s) cs = stable_code s

  abbrev pub error_or_empty : Option String → List ℕ
  error_or_empty none = []
  error_or_empty (some s) = stable_error_code s

  unfoldable pub status_for : EventType → Fields → List ℕ
  unfolding stable_code status_of
  status_for event_type payload =
      explicit_or (truthy_text (get "status" payload)) (codes (status_of event_type))

  -- The loop of `_reason_code` over its keys.
  unfoldable pub reason_among : List String → Fields → List ℕ
  unfolding stable_code stable_error_code
  reason_among [] payload = error_or_empty (truthy_text (get "error" payload))
  reason_among (key ∷ keys) payload =
      let rest = reason_among keys payload in explicit_or (truthy_text (get key payload)) rest

  unfoldable pub reason_code : Fields → List ℕ
  unfolding reason_among
  reason_code payload =
      reason_among ("reason_code" ∷ "reason" ∷ "error_type" ∷ "category" ∷ []) payload

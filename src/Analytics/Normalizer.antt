-- ===== src/Analytics/Normalizer.antt =====
-- apps/api/analytics/clickhouse/normalizer.py: the redaction of a payload and the codes of a row.
-- Letters outside ASCII keep their case here; `str` of a value that is no text is an argument.
pub mod Redaction
pub mod Codes
pub mod Dimensions
mod Tests
use voice_mesh.Prelude.{
  ℕ, String, Bool, true, false, not, ◌||◌, Option, none, some, List, [], ◌∷◌, if◌then◌else◌, str_eq,
}
use voice_mesh.Prelude.Lower.{lower, among}

-- What `json.loads` and Pydantic make of a payload. A number is its text.
mutual
  pub data Value : Type 0 where
    null : Value
    boolean : Bool → Value
    number : String → Value
    text : String → Value
    bytes : String → Value
    array : Items → Value
    object : Fields → Value

  pub data Items : Type 0 where
    nil : Items
    item : Value → Items → Items

  pub data Fields : Type 0 where
    end : Fields
    field : String → Value → Fields → Fields

abbrev redacted_payload_keys : List String
redacted_payload_keys =
    "audio" ∷ "audio_b64" ∷ "audio_bytes" ∷ "chunk" ∷ "data" ∷ "delta" ∷ "final_response"
    ∷ "generated_text" ∷ "spoken_text" ∷ "text" ∷ "transcript" ∷ []

-- `key.lower() in _REDACTED_PAYLOAD_KEYS`
unfoldable pub is_redacted : String → Bool
unfolding lower
is_redacted key = among (lower key) redacted_payload_keys

-- `_sanitize_payload`
unfoldable mutual
  pub sanitize : Value → Value
  sanitize null = null
  sanitize (boolean b) = boolean b
  sanitize (number n) = number n
  sanitize (text s) = text s
  sanitize (bytes s) = text "[redacted-bytes]"
  sanitize (array xs) = array (sanitize_items xs)
  sanitize (object fs) = object (sanitize_fields fs)

  pub sanitize_items : Items → Items
  sanitize_items nil = nil
  sanitize_items (item v xs) = item (sanitize v) (sanitize_items xs)

  pub sanitize_fields : Fields → Fields
  sanitize_fields end = end
  sanitize_fields (field key v fs) =
      let rest = sanitize_fields fs in
      let child = sanitize v in
      if is_redacted key then field key (text "[redacted]") rest else field key child rest

-- `payload.get(key)`
abbrev pub get : String → Fields → Option Value
get k end = none
get k (field key v fs) = let rest = get k fs in if str_eq key k then some v else rest

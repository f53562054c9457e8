-- ===== src/Analytics/Normalizer/Tests.antt =====
-- A payload with texts and bytes.
use voice_mesh.Prelude.{◌≡◌, ◌↔◌, refl, String, Bool, false, some}
use voice_mesh.Prelude.Lower.{codes, lower, same_codes}
use voice_mesh.Events.Schemas.{stt_final_transcript}
use voice_mesh.Analytics.Normalizer.{
  Value, text, bytes, array, object, nil, item, Fields, end, field, is_redacted, sanitize,
  sanitize_fields, get,
}
use voice_mesh.Analytics.Normalizer.Redaction.{IsClean, sanitize-IsClean}
use voice_mesh.Analytics.Normalizer.Codes.{
  status_for, reason_code, reason_among, stable_code, collapse, strip_start, strip_end,
}
use voice_mesh.Analytics.Normalizer.Dimensions.{IsDimension, codes-IsDimension}

abbrev payload : Fields
payload =
    field "Transcript" (text "my card number is")
      (field "frames" (array (item (bytes "pcm") nil)) (field "reason" (text " Rate Limit! ") end))

sanitize-IsClean_example :
    IsClean (sanitize (object payload))
    × ((sanitize (object payload) ≡ object payload) ↔ IsClean (object payload))
sanitize-IsClean_example = sanitize-IsClean (object payload)

marked : get "Transcript" (sanitize_fields payload) ≡ some (text "[redacted]")
unfolding sanitize is_redacted lower same_codes
marked = refl

-- The key under which the final response of the model is published.
response_kept :
    get "response" (sanitize_fields (field "response" (text "Your balance is") end))
    ≡ some (text "Your balance is")
unfolding sanitize is_redacted lower same_codes
response_kept = refl

abbrev str : Value → String
str v = "value"

abbrev is_zero : String → Bool
is_zero n = false

rate_limited : reason_code str is_zero payload ≡ codes "rate_limit"
unfolding reason_code reason_among stable_code collapse strip_start strip_end
rate_limited = refl

codes-IsDimension_example :
    IsDimension (status_for str is_zero stt_final_transcript payload)
    × IsDimension (reason_code str is_zero payload)
codes-IsDimension_example = codes-IsDimension str is_zero stt_final_transcript payload

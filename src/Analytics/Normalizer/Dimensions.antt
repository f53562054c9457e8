-- ===== src/Analytics/Normalizer/Dimensions.antt =====
-- The form of the codes that apps/api/analytics/clickhouse/normalizer.py computes.
use voice_mesh.Prelude.{
  ℕ, zero, suc, ◌≤◌, ◌≡◌, ◌⊎◌, inl, inr, refl, String, Bool, true, false, not, ◌&&◌, ◌||◌, Option,
  none, some, List, [], ◌∷◌, leb, take, length, arith,
}
use voice_mesh.Prelude.Lower.{codes, is_space}
use voice_mesh.Events.Schemas.{EventType}
use voice_mesh.Analytics.Normalizer.{Value, Fields, get}
use voice_mesh.Analytics.Normalizer.Codes.{
  is_word_code, is_underscore, collapse, strip_start, strip_end, strip, or_unknown, stable_code,
  stable_error_code, status_of, status_for, reason_among, reason_code, explicit_or, error_or_empty,
  truthy_text, lowered,
}

-- Letters, digits and single underscores; an underscore may begin the text unless `gap`.
abbrev pub is_tidy : Bool → List ℕ → Bool
is_tidy gap [] = true
is_tidy gap (c ∷ cs) =
    let word = is_tidy false cs in
    let mark = is_tidy true cs in (is_word_code c && word) || (is_underscore c && not gap && mark)

-- One to 80 letters, digits and single underscores, the first no underscore.
pub record IsCode (cs : List ℕ) : Type 0 where
  pub tidy : is_tidy true cs ≡ true
  pub filled : 1 ≤ length cs
  pub short : length cs ≤ 80

collapse_tidy : (gap : Bool) (cs : List ℕ) → is_tidy gap (collapse gap cs) ≡ true
unfolding collapse
collapse_tidy gap [] = refl
collapse_tidy gap (c ∷ cs) = ground (arith, collapse_tidy false cs, collapse_tidy true cs)

tidy_weaker : (cs : List ℕ) → is_tidy true cs ≡ true → is_tidy false cs ≡ true
tidy_weaker [] h = refl
tidy_weaker (c ∷ cs) h = ground (arith, h)

strip_start_tidy :
    (cs : List ℕ) → is_tidy false cs ≡ true → is_tidy true (strip_start is_underscore cs) ≡ true
unfolding strip_start
strip_start_tidy [] h = refl
strip_start_tidy (c ∷ cs) h = ground (arith, h, tidy_weaker cs, strip_start_tidy cs)

strip_end_tidy :
    (gap : Bool) (cs : List ℕ)
    → is_tidy gap cs ≡ true
    → is_tidy gap (strip_end is_underscore cs) ≡ true
unfolding strip_end
strip_end_tidy gap [] h = refl
strip_end_tidy gap (c ∷ cs) h = ground (arith, h, strip_end_tidy false cs, strip_end_tidy true cs)

take_tidy :
    (n : ℕ) (gap : Bool) (cs : List ℕ) → is_tidy gap cs ≡ true → is_tidy gap (take n cs) ≡ true
take_tidy zero gap cs h = refl
take_tidy (suc n) gap [] h = refl
take_tidy (suc n) gap (c ∷ cs) h = ground (arith, h, take_tidy n false cs, take_tidy n true cs)

take_short : (n : ℕ) (cs : List ℕ) → length (take n cs) ≤ n
take_short zero cs = omega arith
take_short (suc n) [] = omega arith
take_short (suc n) (c ∷ cs) = omega (arith, take_short n cs)

unknown-IsCode : IsCode (codes "unknown")
unknown-IsCode = record { tidy = refl; filled = omega arith; short = omega arith }

or_unknown-IsCode : (cs : List ℕ) → is_tidy true cs ≡ true → length cs ≤ 80 → IsCode (or_unknown cs)
or_unknown-IsCode [] h k = unknown-IsCode
or_unknown-IsCode (c ∷ cs) h k = record { tidy = h; filled = omega arith; short = k }

stable_code-IsCode : (value : String) → IsCode (stable_code value)
unfolding stable_code
stable_code-IsCode value =
    let run = collapse false (lowered (strip is_space (codes value))) in
    let stripped = strip is_underscore run in
    or_unknown-IsCode (take 80 stripped)
      (take_tidy 80 true stripped (
        strip_end_tidy true (strip_start is_underscore run)
          (strip_start_tidy run (collapse_tidy false (lowered (strip is_space (codes value)))))))
      (take_short 80 stripped)

-- What a row holds: no code, or one of that form.
abbrev pub IsDimension : List ℕ → Type 0
IsDimension cs = (cs ≡ []) ⊎ IsCode cs

fixed :
    (cs : List ℕ)
    → is_tidy true cs ≡ true
    → (leb 1 (length cs) && leb (length cs) 80) ≡ true
    → IsCode cs
fixed cs h k = record { tidy = h; filled = ground (arith, k); short = ground (arith, k) }

stable_error_code-IsCode : (message : String) → IsCode (stable_error_code message)
unfolding stable_error_code
stable_error_code-IsCode message = ground (
  arith,
  fixed (codes "timeout") refl refl,
  fixed (codes "rate_limited") refl refl,
  fixed (codes "auth_failed") refl refl,
  fixed (codes "network_error") refl refl,
  fixed (codes "provider_error") refl refl,
)

abbrev is_dimension : List ℕ → Bool
is_dimension [] = true
is_dimension (c ∷ cs) = is_tidy true (c ∷ cs) && leb (length (c ∷ cs)) 80

tested-IsDimension : (cs : List ℕ) → is_dimension cs ≡ true → IsDimension cs
tested-IsDimension [] h = inl refl
tested-IsDimension (c ∷ cs) h =
    inr (record { tidy = ground (arith, h); filled = omega arith; short = ground (arith, h) })

status_dimension : (e : EventType) → is_dimension (codes (status_of e)) ≡ true
unfolding status_of
status_dimension EventType.call_started = refl
status_dimension _ = refl

module _ (str : Value → String) (is_zero : String → Bool) where
  explicit_or-IsDimension :
      (o : Option String) (cs : List ℕ)
      → IsDimension cs
      → IsDimension (explicit_or str is_zero o cs)
  explicit_or-IsDimension none cs h = h
  explicit_or-IsDimension (some s) cs h = inr (stable_code-IsCode s)

  error_or_empty-IsDimension : (o : Option String) → IsDimension (error_or_empty str is_zero o)
  error_or_empty-IsDimension none = inl refl
  error_or_empty-IsDimension (some s) = inr (stable_error_code-IsCode s)

  reason_among-IsDimension :
      (keys : List String) (payload : Fields) → IsDimension (reason_among str is_zero keys payload)
  unfolding reason_among
  reason_among-IsDimension [] payload =
      error_or_empty-IsDimension (truthy_text str is_zero (get "error" payload))
  reason_among-IsDimension (key ∷ keys) payload =
      explicit_or-IsDimension (truthy_text str is_zero (get key payload))
        (reason_among str is_zero keys payload) (reason_among-IsDimension keys payload)

  -- Whatever an event's payload holds, the status and the reason code of its row are each empty, or one
  -- to 80 small letters, digits and single underscores that begin with no underscore.
  pub codes-IsDimension :
      (event_type : EventType) (payload : Fields)
      → IsDimension (status_for str is_zero event_type payload)
        × IsDimension (reason_code str is_zero payload)
  unfolding status_for reason_code
  codes-IsDimension event_type payload = (
    explicit_or-IsDimension (truthy_text str is_zero (get "status" payload))
        (codes (status_of event_type))
        (tested-IsDimension (codes (status_of event_type)) (status_dimension event_type)),
    reason_among-IsDimension ("reason_code" ∷ "reason" ∷ "error_type" ∷ "category" ∷ []) payload,
  )

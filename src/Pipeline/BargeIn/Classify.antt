-- ===== src/Pipeline/BargeIn/Classify.antt =====
-- apps/api/pipeline/barge_in.py: classify_interruption, on ASCII text.
use voice_mesh.Prelude.{
  ℕ, String, Bool, true, false, ◌&&◌, ◌||◌, List, [], ◌∷◌, ◌==◌, if◌then◌else◌,
}
use voice_mesh.Prelude.Lower.{codes, lower, among, is_space, starts_with, contains}
use voice_mesh.Pipeline.BargeIn.{
  BargeInSemantic, correction, cancellation_request, additive_context, backchannel,
  clarification_or_repeat, noise_or_echo, unknown_interruption,
}

-- The characters of `strip(" \t\n\r.,!?")`.
abbrev pub is_margin : ℕ → Bool
is_margin c =
    c == 32 || c == 9 || c == 10 || c == 13 || c == b'.' || c == b',' || c == b'!' || c == b'?'

abbrev drop_margin : (ℕ → Bool) → List ℕ → List ℕ
drop_margin p [] = []
drop_margin p (c ∷ cs) = let rest = drop_margin p cs in if p c then rest else c ∷ cs

abbrev reversed : List ℕ → List ℕ → List ℕ
reversed [] out = out
reversed (c ∷ cs) out = reversed cs (c ∷ out)

-- `text.strip(characters)`
abbrev pub strip_codes : (ℕ → Bool) → List ℕ → List ℕ
strip_codes p cs = reversed (drop_margin p (reversed (drop_margin p cs) [])) []

-- `" ".join(text.split())`: `gap` says that white space stands before the rest, and `begun` that a
-- word stands before it.
abbrev pub squeeze : Bool → Bool → List ℕ → List ℕ
squeeze begun gap [] = []
squeeze begun gap (c ∷ cs) =
    let word = c ∷ squeeze true false cs in
    let skipped = squeeze begun true cs in
    if is_space c then skipped else if begun && gap then 32 ∷ word else word

unfoldable pub cleaned_codes : String → List ℕ
unfolding lower
cleaned_codes transcript = squeeze false false (strip_codes is_margin (lower transcript))

abbrev pub any_marker : List String → List ℕ → Bool
any_marker [] cs = false
any_marker (m ∷ ms) cs = contains (codes m) cs || any_marker ms cs

abbrev backchannels : List String
backchannels = "yeah" ∷ "yep" ∷ "right" ∷ "okay" ∷ "ok" ∷ "mm-hmm" ∷ "mhm" ∷ "uh huh" ∷ []

abbrev pub cancellation_markers : List String
cancellation_markers =
    "cancel" ∷ "never mind" ∷ "nevermind" ∷ "don't submit" ∷ "do not submit" ∷ "stop that" ∷ []

abbrev correction_markers : List String
correction_markers =
    "strike that" ∷ "scratch that" ∷ "actually" ∷ "i meant" ∷ "no i mean" ∷ "no, i mean" ∷ "use"
    ∷ "instead" ∷ []

abbrev additive_markers : List String
additive_markers = "also" ∷ "and one more" ∷ "one more thing" ∷ "by the way" ∷ "plus" ∷ []

abbrev clarification_markers : List String
clarification_markers = "what did you say" ∷ "repeat" ∷ "say that again" ∷ "can you repeat" ∷ []

-- The second half of the code's test for a backchannel says what the first says.
unfoldable pub classify_codes : List ℕ → BargeInSemantic
classify_codes [] = noise_or_echo
classify_codes (c ∷ cs) =
    let cleaned = c ∷ cs in
    if among cleaned backchannels
    then backchannel
    else if any_marker cancellation_markers cleaned
    then cancellation_request
    else if any_marker correction_markers cleaned
    then correction
    else if starts_with (codes "and ") cleaned || any_marker additive_markers cleaned
    then additive_context
    else if any_marker clarification_markers cleaned
    then clarification_or_repeat
    else unknown_interruption

unfoldable pub classify_interruption : String → BargeInSemantic
unfolding classify_codes cleaned_codes
classify_interruption transcript = classify_codes (cleaned_codes transcript)

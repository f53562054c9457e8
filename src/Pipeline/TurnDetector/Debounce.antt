-- ===== src/Pipeline/TurnDetector/Debounce.antt =====
-- When a turn starts and ends, in terms of the frames heard so far.
use voice_mesh.Prelude.{
  Bool, true, ℕ, ◌+◌, ◌≡◌, false, not, ◌&&◌, List, [], ◌∷◌, arith, leb, if◌then◌else◌,
}
use voice_mesh.Prelude.Traces.{run}
use voice_mesh.Pipeline.TurnDetector.{
  VadState, quiet, speaking, stopping, VadResult, SmoothedTurnDetector, init, update, move, heard,
  silent, count_frame, Marked, next, report, same_state,
}

-- Inside a turn: its start was reported and its end was not.
abbrev pub is_open : VadState → Bool
is_open speaking = true
is_open stopping = true
is_open _ = false

-- The length of the run of speech, or of silence, that the frames end with, after a run of `n`.
abbrev pub speech_run : ℕ → List VadResult → ℕ
speech_run n [] = n
speech_run n (r ∷ rs) = speech_run (if r.speech then n + r.frame_duration_ms else 0) rs

abbrev pub silence_run : ℕ → List VadResult → ℕ
silence_run n [] = n
silence_run n (r ∷ rs) = silence_run (if r.speech then 0 else n + r.frame_duration_ms) rs

-- The detector's counters against the runs that the frames so far end with.
record Tracks (m e speech silence : ℕ) (d : SmoothedTurnDetector) : Type 0 where
  min_kept : d.min_speech_ms ≡ m
  end_kept : d.end_silence_ms ≡ e
  speech_counted : d.speech_ms ≡ speech
  silence_counted : d.state ≡ stopping → d.silence_ms ≡ silence
  voiced : d.state ≡ speaking → silence ≡ 0

heard-Tracks :
    (s : VadState) (m e a b n : ℕ) (d : SmoothedTurnDetector)
    → d.state ≡ s
    → Tracks m e a b d
    → Tracks m e (a + n) 0 (heard s n d).0
unfolding heard
heard-Tracks quiet m e a b n d q h = ground arith
heard-Tracks _ m e a b n d q h = ground arith

silent-Tracks :
    (s : VadState) (m e a b n : ℕ) (d : SmoothedTurnDetector)
    → d.state ≡ s
    → Tracks m e a b d
    → Tracks m e 0 (b + n) (silent s n d).0
unfolding silent
silent-Tracks quiet m e a b n d q h = ground arith
silent-Tracks _ m e a b n d q h = ground arith

count-Tracks :
    (m e a b : ℕ) (r : VadResult) (k : Marked)
    → Tracks m e a b k.0
    → Tracks m e a b (count_frame r k)
unfolding count_frame
count-Tracks m e a b r (d, started, ended) h = ground arith

move-Tracks :
    (m e a b : ℕ) (r : VadResult) (d : SmoothedTurnDetector)
    → Tracks m e a b d
    → Tracks m e
        (if r.speech then a + r.frame_duration_ms else 0)
        (if r.speech then 0 else b + r.frame_duration_ms)
        (move r d).0
unfolding move
move-Tracks m e a b r d h = ground (
  arith,
  heard-Tracks d.state m e a b r.frame_duration_ms d,
  silent-Tracks d.state m e a b r.frame_duration_ms d,
)

run-Tracks :
    (m e a b : ℕ) (d : SmoothedTurnDetector) (rs : List VadResult)
    → Tracks m e a b d
    → Tracks m e (speech_run a rs) (silence_run b rs) (run next d rs)
unfolding update
run-Tracks m e a b d [] h = h
run-Tracks m e a b d (r ∷ rs) h =
    let a' = if r.speech then a + r.frame_duration_ms else 0 in
    let b' = if r.speech then 0 else b + r.frame_duration_ms in
    run-Tracks m e a' b' (next d r) rs
      (count-Tracks m e a' b' r (move r d) (move-Tracks m e a b r d h))

marks_heard :
    (s : VadState) (n : ℕ) (d : SmoothedTurnDetector)
    → ((heard s n d).1 ≡ (not (is_open s) && leb d.min_speech_ms (d.speech_ms + n)))
      × ((heard s n d).2 ≡ false)
unfolding heard
marks_heard quiet n d = ground arith
marks_heard _ n d = ground arith

marks_silent :
    (s : VadState) (n : ℕ) (d : SmoothedTurnDetector)
    → ((silent s n d).1 ≡ false)
      × ((silent s n d).2 ≡ (same_state s stopping && leb d.end_silence_ms (d.silence_ms + n)))
unfolding silent
marks_silent quiet n d = ground arith
marks_silent _ n d = ground arith

init-Tracks : (m e p : ℕ) → Tracks m e 0 0 (init m e p)
unfolding init
init-Tracks m e p = ground arith

marks_exact :
    (m e a b : ℕ) (r : VadResult) (d : SmoothedTurnDetector)
    → Tracks m e a b d
    → ((move r d).1 ≡ (r.speech && (not (is_open d.state) && leb m (a + r.frame_duration_ms))))
      × ((move r d).2
          ≡ (not r.speech && (same_state d.state stopping && leb e (b + r.frame_duration_ms))))
unfolding move
marks_exact m e a b r d h =
    ground
      (arith, marks_heard d.state r.frame_duration_ms d, marks_silent d.state r.frame_duration_ms d)

-- After frames `rs` from a new detector, frame `r` starts a turn exactly when no turn is open, it is
-- speech and the unbroken speech up to and with it lasts `min_speech_ms`; it ends one exactly when
-- the detector is in STOPPING, it is silent and the unbroken silence lasts `end_silence_ms`.
pub report_exact :
    (m e p : ℕ) (rs : List VadResult) (r : VadResult)
    → let d = run next (init m e p) rs in
      ((report d r).started
        ≡ (r.speech && (not (is_open d.state) && leb m (speech_run 0 rs + r.frame_duration_ms))))
      × ((report d r).ended ≡ (
          not r.speech
          && (same_state d.state stopping && leb e (silence_run 0 rs + r.frame_duration_ms))))
unfolding update
report_exact m e p rs r =
    marks_exact m e (speech_run 0 rs) (silence_run 0 rs) r (run next (init m e p) rs)
      (run-Tracks m e 0 0 (init m e p) rs (init-Tracks m e p))

-- ===== src/Pipeline/TurnDetector.antt =====
-- apps/api/pipeline/stages/vad.py: SmoothedTurnDetector. Durations are numbers of one fixed fraction
-- of a millisecond; a ratio of frames is kept as its two counts.
pub mod Debounce
mod Tests
use voice_mesh.Prelude.{ℕ, ◌+◌, Bool, true, false, ◌&&◌, ◌||◌, not, leb, ◌==◌, if◌then◌else◌}

pub data VadState : Type 0 where
  quiet starting speaking stopping : VadState

-- The fields of a VADResult that the detector reads.
pub record VadResult : Type 0 where
  pub speech : Bool
  pub frame_duration_ms : ℕ

-- `a / b if b else 0.0`
pub record Ratio : Type 0 where
  pub over : ℕ
  pub under : ℕ

pub record TurnUpdate : Type 0 where
  pub previous_state : VadState
  pub state : VadState
  pub started : Bool
  pub ended : Bool
  pub collect_audio : Bool
  pub state_changed : Bool
  pub speech_duration_ms : ℕ
  pub total_duration_ms : ℕ
  pub speech_frame_ratio : Ratio

pub record SmoothedTurnDetector : Type 0 where
  pub min_speech_ms : ℕ
  pub end_silence_ms : ℕ
  pub speech_pad_ms : ℕ
  pub state : VadState
  pub speech_ms : ℕ
  pub silence_ms : ℕ
  pub turn_speech_ms : ℕ
  pub turn_total_ms : ℕ
  pub turn_speech_frames : ℕ
  pub turn_total_frames : ℕ

unfoldable pub init : ℕ → ℕ → ℕ → SmoothedTurnDetector
init min_speech_ms end_silence_ms speech_pad_ms = record {
  min_speech_ms = min_speech_ms;
  end_silence_ms = end_silence_ms;
  speech_pad_ms = speech_pad_ms;
  state = quiet;
  speech_ms = 0;
  silence_ms = 0;
  turn_speech_ms = 0;
  turn_total_ms = 0;
  turn_speech_frames = 0;
  turn_total_frames = 0;
}

unfoldable pub reset_turn_stats : SmoothedTurnDetector → SmoothedTurnDetector
reset_turn_stats d = record d {
  turn_speech_ms = 0;
  turn_total_ms = 0;
  turn_speech_frames = 0;
  turn_total_frames = 0;
}

-- The detector with the two local flags of `update`.
abbrev pub Marked : Type 0
Marked = SmoothedTurnDetector × Bool × Bool

-- `if self.state == STARTING and self.speech_ms >= self.min_speech_ms`, for a detector in STARTING.
confirm_start : SmoothedTurnDetector → Marked
confirm_start d =
    if leb d.min_speech_ms d.speech_ms
    then (record d { state = speaking }, true, false)
    else (record d { state = starting }, false, false)

-- The branch of a frame with speech, by the state before it.
heard : VadState → ℕ → SmoothedTurnDetector → Marked
unfolding confirm_start reset_turn_stats
heard quiet duration d =
    confirm_start
      (reset_turn_stats (record d { speech_ms = d.speech_ms + duration; silence_ms = 0 }))
heard starting duration d =
    confirm_start (record d { speech_ms = d.speech_ms + duration; silence_ms = 0 })
heard speaking duration d =
    (record d { speech_ms = d.speech_ms + duration; silence_ms = 0 }, false, false)
heard stopping duration d = (
  record d { speech_ms = d.speech_ms + duration; silence_ms = 0; state = speaking },
  false,
  false,
)

-- The branch of a frame without speech.
silent : VadState → ℕ → SmoothedTurnDetector → Marked
unfolding reset_turn_stats
silent quiet duration d = (record d { speech_ms = 0 }, false, false)
silent starting duration d =
    (reset_turn_stats (record d { speech_ms = 0; state = quiet }), false, false)
silent speaking duration d =
    (record d { speech_ms = 0; state = stopping; silence_ms = duration }, false, false)
silent stopping duration d =
    if leb d.end_silence_ms (d.silence_ms + duration)
    then (record d { speech_ms = 0; state = quiet; silence_ms = 0 }, false, true)
    else (record d { speech_ms = 0; silence_ms = d.silence_ms + duration }, false, false)

abbrev pub in_turn : VadState → Bool
in_turn quiet = false
in_turn _ = true

abbrev same_state : VadState → VadState → Bool
same_state quiet quiet = true
same_state starting starting = true
same_state speaking speaking = true
same_state stopping stopping = true
same_state _ _ = false

-- The statistics of the turn, after the state has moved.
count_frame : VadResult → Marked → SmoothedTurnDetector
count_frame result (d, started, ended) =
    if in_turn d.state || ended
    then record d {
      turn_total_ms = d.turn_total_ms + result.frame_duration_ms;
      turn_total_frames = d.turn_total_frames + 1;
      turn_speech_ms =
          if result.speech then d.turn_speech_ms + result.frame_duration_ms else d.turn_speech_ms;
      turn_speech_frames = if result.speech then d.turn_speech_frames + 1 else d.turn_speech_frames;
    }
    else d

unfoldable pub frame_ratio : SmoothedTurnDetector → Ratio
frame_ratio d =
    if d.turn_total_frames == 0
    then record { over = 0; under = 1 }
    else record { over = d.turn_speech_frames; under = d.turn_total_frames }

unfoldable pub move : VadResult → SmoothedTurnDetector → Marked
unfolding heard silent
move result d =
    if result.speech
    then heard d.state result.frame_duration_ms d
    else silent d.state result.frame_duration_ms d

unfoldable pub update : VadResult → SmoothedTurnDetector → SmoothedTurnDetector × TurnUpdate
unfolding move count_frame frame_ratio
update result d =
    let m = move result d in
    let d' = count_frame result m in
    (
      d',
      record {
        previous_state = d.state;
        state = d'.state;
        started = m.1;
        ended = m.2;
        collect_audio = in_turn d'.state;
        state_changed = not (same_state d.state d'.state);
        speech_duration_ms = d'.turn_speech_ms;
        total_duration_ms = d'.turn_total_ms;
        speech_frame_ratio = frame_ratio d';
      },
    )

abbrev pub next : SmoothedTurnDetector → VadResult → SmoothedTurnDetector
next d result = (update result d).0

abbrev pub report : SmoothedTurnDetector → VadResult → TurnUpdate
report d result = (update result d).1

-- ===== src/Pipeline/TurnDetector/Tests.antt =====
-- The detector's theorems over one turn of two frames of speech and two of silence.
use voice_mesh.Prelude.{◌+◌, ◌≡◌, true, false, not, ◌&&◌, List, [], ◌∷◌, leb}
use voice_mesh.Prelude.Traces.{run}
use voice_mesh.Pipeline.TurnDetector.{VadResult, stopping, init, next, report, same_state}
use voice_mesh.Pipeline.TurnDetector.Debounce.{is_open, speech_run, silence_run, report_exact}

abbrev voice : VadResult
voice = record { speech = true; frame_duration_ms = 20 }

abbrev pause : VadResult
pause = record { speech = false; frame_duration_ms = 20 }

abbrev frames : List VadResult
frames = voice ∷ voice ∷ pause ∷ pause ∷ voice ∷ voice ∷ []

report_exact_example :
    let d = run next (init 40 40 0) (voice ∷ []) in
    ((report d voice).started ≡ (
      voice.speech
      && (not (is_open d.state) && leb 40 (speech_run 0 (voice ∷ []) + voice.frame_duration_ms))))
    × ((report d voice).ended ≡ (
        not voice.speech
        && (same_state d.state stopping
            && leb 40 (silence_run 0 (voice ∷ []) + voice.frame_duration_ms))))
report_exact_example = report_exact 40 40 0 (voice ∷ []) voice

-- ===== src/Pipeline/Stream/Turns.antt =====
-- stream_module.py: what becomes of a turn of the user's, `_process_turn` and what it calls. The
-- detector's snapshot is an argument, as is the transcript that the provider returns.
use voice_mesh.Prelude.{
  String, Bool, true, false, not, ◌&&◌, Option, none, some, [], ◌∷◌, map, leb, ltb, if◌then◌else◌,
  str_eq, is_some,
}
use voice_mesh.Prelude.Lower.{codes, lower_code, among, is_space}
use voice_mesh.Prelude.Dict.{lookup, insert, delete, get_or}
use voice_mesh.Events.Schemas.{
  vad_noise_turn_ignored, vad_speech_ended, user_barge_in_classified, stt_started,
  stt_final_transcript, usage_stt_recorded,
}
use voice_mesh.Pipeline.BargeIn.{BargeInSemantic, backchannel, noise_or_echo}
use voice_mesh.Pipeline.BargeIn.Cancelling.{set_resolving, resolved}
use voice_mesh.Pipeline.BargeIn.Classify.{classify_interruption, strip_codes, is_margin, squeeze}
use voice_mesh.Pipeline.TurnDetector.{TurnUpdate}
use voice_mesh.Pipeline.Stream.{Stream, TurnStats, user_said, plain, about_response, emit}
use voice_mesh.Pipeline.Stream.Speaking.{expect_usage}
use voice_mesh.Pipeline.Stream.Interrupting.{ratio_ltb}

-- `_handle_audio` where the detector ends a turn, up to `_finalize_turn`.
unfoldable pub end_speech : TurnUpdate → Stream → Stream
end_speech u s = emit vad_speech_ended "vad" none plain (record s {
  turn_stats =
      insert s.turn_id
        (record {
          speech_duration_ms = u.speech_duration_ms;
          total_duration_ms = u.total_duration_ms;
          speech_frame_ratio = u.speech_frame_ratio;
        })
        s.turn_stats;
})

-- `_run_stt`: its start, and on a result of the provider its two events and the expected usage.
unfoldable pub start_stt : String → Stream → Stream
start_stt turn_id s =
    emit stt_started "stt" none plain (record s { turn_id = turn_id; current_stage = "stt" })

unfoldable pub finish_stt : Stream → Stream
finish_stt s = emit stt_final_transcript "stt" none plain s

unfoldable pub record_stt_usage : Stream → Stream
record_stt_usage s = emit usage_stt_recorded "stt" none plain s

unfoldable pub expect_stt_usage : String → Stream → Stream
expect_stt_usage turn_id s = expect_usage turn_id "stt_audio_seconds" s

abbrev pub too_short : String
too_short = "too_short"

-- `_noise_turn_reason` on the turn's statistics.
unfoldable pub noise_reason : TurnStats → String → Stream → Option String
noise_reason stats transcript s =
    let cleaned = strip_codes is_space (codes transcript) in
    let normalized = squeeze false false (strip_codes is_margin (map lower_code cleaned)) in
    if ltb stats.speech_duration_ms s.settings.vad_min_turn_audio_ms
    then some too_short
    else if among cleaned ("" ∷ [])
    then some "empty_transcript"
    else if among normalized ("hi" ∷ "hello" ∷ "hey" ∷ []) && leb 500 stats.speech_duration_ms
    then none
    else if ratio_ltb stats.speech_frame_ratio s.settings.vad_min_speech_frame_ratio
    then if leb s.settings.vad_min_transcribed_turn_audio_ms stats.speech_duration_ms
      then none
      else some "low_speech_ratio"
    else none

unfoldable pub noise_turn_reason : String → String → TurnStats → Stream → Option String
unfolding noise_reason
noise_turn_reason turn_id transcript current s =
    noise_reason (get_or current (lookup turn_id s.turn_stats)) transcript s

-- `_resolve_barge_in_semantics`, up to the publication of its event.
unfoldable pub start_resolving : String → Stream → Stream
start_resolving turn_id s =
    emit user_barge_in_classified "barge_in" (some turn_id) plain
      (record s { barge_in = set_resolving s.barge_in })

abbrev pub is_backchannel : BargeInSemantic → Bool
is_backchannel backchannel = true
is_backchannel _ = false

-- `_semantic_for_short_turn`
unfoldable pub semantic_for_short_turn : String → Option BargeInSemantic
semantic_for_short_turn transcript =
    let semantic = classify_interruption transcript in
    if is_backchannel semantic then some semantic else none

abbrev pub or_short : String → Option BargeInSemantic → Option BargeInSemantic
or_short transcript none = semantic_for_short_turn transcript
or_short transcript (some x) = some x

abbrev pub is_backchannel? : Option BargeInSemantic → Bool
is_backchannel? none = false
is_backchannel? (some x) = is_backchannel x

-- `_ignore_noise_turn`, which takes the turn's statistics away.
unfoldable pub ignore_noise_turn : String → String → Stream → Stream
ignore_noise_turn turn_id reason s =
    emit vad_noise_turn_ignored "vad" (some turn_id) (about_response "" reason)
      (record s { turn_stats = delete turn_id s.turn_stats })

-- What `_process_turn` goes on with: an interruption that is classified first, as noise or else by its
-- transcript, or the end of the turn, or the answer, once the browser has the transcript.
pub data TurnOutcome : Type 0 where
  noise : String → TurnOutcome
  classified : BargeInSemantic → TurnOutcome
  backchannel_ignored : TurnOutcome
  accepted : Option BargeInSemantic → TurnOutcome

-- With the semantic that was resolved, if any.
unfoldable pub decide_turn :
    String → String → Option BargeInSemantic → Stream → Stream × TurnOutcome
unfolding semantic_for_short_turn
decide_turn turn_id transcript found s =
    let semantic = or_short transcript found in
    if is_backchannel? semantic && not (str_eq s.settings.barge_in_backchannel_policy "high")
    then (
      record s {
        conversation = user_said turn_id transcript semantic false ∷ s.conversation;
        last_interruption = none;
      },
      backchannel_ignored,
    )
    else (
      record s { turn_stats = delete turn_id s.turn_stats; transcript = transcript },
      accepted semantic,
    )

-- From the transcript on, up to the first wait.
unfoldable pub judge_turn : String → String → TurnStats → Stream → Stream × TurnOutcome
unfolding noise_turn_reason start_resolving decide_turn
judge_turn turn_id transcript current s = elim (noise_turn_reason turn_id transcript current s) [
  | some reason ↦ (start_resolving turn_id s, noise reason)
  | none ↦
      if is_some s.last_interruption
      then (start_resolving turn_id s, classified (classify_interruption transcript))
      else decide_turn turn_id transcript none s
]

-- After the event of a classification: a turn of noise, and any other.
unfoldable pub end_noise : String → String → Stream → Stream
unfolding ignore_noise_turn
end_noise turn_id reason s =
    ignore_noise_turn turn_id reason
      (record s { barge_in = resolved noise_or_echo s.barge_in; last_interruption = none })

unfoldable pub end_resolving : String → String → BargeInSemantic → Stream → Stream × TurnOutcome
unfolding decide_turn
end_resolving turn_id transcript semantic s =
    decide_turn turn_id transcript (some semantic)
      (record s { barge_in = resolved semantic s.barge_in })

-- After the transcript was sent to the browser.
unfoldable pub accept_turn : String → String → Option BargeInSemantic → Stream → Stream
accept_turn turn_id transcript semantic s = record s {
  conversation = user_said turn_id transcript semantic true ∷ s.conversation;
}

-- The end of `_process_turn`, after the response.
unfoldable pub finish_turn : Option BargeInSemantic → Stream → Stream
finish_turn semantic s = if is_some semantic then record s { last_interruption = none } else s

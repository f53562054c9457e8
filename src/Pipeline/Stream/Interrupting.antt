-- ===== src/Pipeline/Stream/Interrupting.antt =====
-- stream_module.py: interruptions by the user.
use voice_mesh.Prelude.{
  ℕ, ◌+◌, ◌*◌, max, String, Bool, false, not, ◌&&◌, ◌||◌, Option, none, some, leb, ltb,
  if◌then◌else◌, str_eq, is_text, or_text, add_text, remove_text, is_some,
}
use voice_mesh.Prelude.Int.{ℤ}
use voice_mesh.Prelude.Dict.{lookup, has_key, get_or}
use voice_mesh.Events.Schemas.{
  user_barge_in_candidate, user_barge_in_confirmed, user_barge_in_rejected,
  pipeline_playback_stopped,
}
use voice_mesh.Pipeline.BargeIn.{
  BargeInCandidate, BargeInTransition, BargeInCoordinator, Reply, reject, reject_expired,
  set_assistant_playing, offer, playback_progress, backend_candidate, confirm,
}
use voice_mesh.Pipeline.TurnDetector.{Ratio, TurnUpdate}
use voice_mesh.Pipeline.Stream.{Stream, about_response, emit}
use voice_mesh.Pipeline.Stream.Speaking.{finish_if_playback_done}

-- `_restore_recent_response_for_candidate`: a response whose audio was sent a short while ago becomes
-- the active one again.
unfoldable pub restore_recent : BargeInCandidate → ℕ → Stream → Stream
restore_recent x now s =
    let r = x.response_id in
    let grace =
      max s.settings.barge_in_recent_response_grace_ms
        (get_or 0 (lookup r s.estimated_ms) + 1000) in
    if has_key r s.responses.cancelled then s else elim (lookup r s.responses.response_turns) [
      | none ↦ s
      | some response_turn_id ↦
          if str_eq response_turn_id "" then s else elim (lookup r s.last_audio_sent_at) [
            | none ↦ s
            | some sent_at ↦ if ltb (sent_at + grace) now then s else record s {
              responses = record s.responses { active_response_id = some r };
              active_response_id = some r;
              playback_done = remove_text r s.playback_done;
              barge_in =
                  set_assistant_playing (or_text (some x.turn_id) response_turn_id) r s.barge_in;
            }
          ]
    ]

abbrev text_or_empty : Option String → String
text_or_empty none = ""
text_or_empty (some s) = s

-- `_emit_barge_rejected`
unfoldable pub emit_rejected : Option String → String → Stream → Stream
emit_rejected r reason s =
    emit user_barge_in_rejected "barge_in" none (about_response (text_or_empty r) reason) s

-- The rest of `_handle_barge_in_candidate`, by the coordinator's transition, up to the publication of
-- its first event.
unfoldable pub react_to_candidate :
    BargeInCandidate → ℕ → Option BargeInTransition → Stream → Stream
unfolding emit_rejected
react_to_candidate x now none s = s
react_to_candidate x now (some t) s =
    if str_eq t.reason_code "stale_response"
    then emit_rejected t.response_id "stale_response" s
    else if t.duplicate
    then s
    else let heard : Stream = record s {
      barge_in =
          (playback_progress x.turn_id x.response_id x.last_played_sequence x.played_audio_ms now
            s.barge_in).0;
    } in
      emit user_barge_in_candidate "barge_in" none (about_response x.response_id x.source) heard

-- The second event for a candidate that is neither stale nor a duplicate.
unfoldable pub stop_playback : BargeInCandidate → Stream → Stream
stop_playback x s =
    emit pipeline_playback_stopped "transport" none
      (about_response x.response_id "speculative_candidate") s

-- `_handle_barge_in_candidate` up to its first event, in two parts.
unfoldable pub know_response : BargeInCandidate → ℕ → Stream → Stream
unfolding restore_recent
know_response x now s =
    if not (is_text x.response_id s.barge_in.active_response_id) then restore_recent x now s else s

unfoldable pub offer_candidate : BargeInCandidate → ℕ → Stream → Stream
unfolding react_to_candidate
offer_candidate x now s =
    let (barge_in, transition) = offer x s.barge_in in
    react_to_candidate x now transition (record s { barge_in = barge_in })

unfoldable pub handle_candidate : BargeInCandidate → ℕ → Stream → Stream
unfolding know_response offer_candidate
handle_candidate x now s = offer_candidate x now (know_response x now s)

-- `_handle_playback_progress` and `_handle_playback_done`.
unfoldable pub handle_progress : String → String → ℤ → ℤ → ℕ → Stream → Stream
handle_progress turn_id r sequence played now s = record s {
  barge_in = (playback_progress turn_id r sequence played now s.barge_in).0;
}

unfoldable pub handle_done : String → String → ℤ → ℤ → ℕ → Stream → Stream
unfolding handle_progress
handle_done turn_id r sequence played now s =
    if str_eq r ""
    then s
    else finish_if_playback_done r (
        handle_progress turn_id r sequence played now
          (record s { playback_done = add_text r s.playback_done }))

-- `reject(reason) or reject_expired()`
abbrev or_else : Reply → ℕ → Reply
or_else (c, some t) now = (c, some t)
or_else (c, none) now = reject_expired now c

abbrev maybe_reject : String → ℕ → BargeInCoordinator → Reply
maybe_reject reason now c = or_else (reject reason c) now

-- `_maybe_reject_barge_in_candidate`
unfoldable pub reject_candidate : String → ℕ → Stream → Stream
unfolding emit_rejected
reject_candidate reason now s =
    let (barge_in, transition) = maybe_reject reason now s.barge_in in
    let s' : Stream = record s { barge_in = barge_in } in
    elim transition [ none ↦ s' | some t ↦ emit_rejected t.response_id t.reason_code s' ]

-- `first_audio_at is not None and now - first_audio_at < grace_seconds`
abbrev is_recent : Option ℕ → ℕ → ℕ → Bool
is_recent none grace now = false
is_recent (some at) grace now = ltb now (at + grace)

-- `_is_in_backend_barge_in_echo_grace`
unfoldable pub is_in_echo_grace : String → ℕ → Stream → Bool
is_in_echo_grace r now s =
    let grace = s.settings.barge_in_backend_echo_grace_ms in
    if leb grace 0
    then false
    else is_recent (lookup r s.first_audio_at) grace now
      || is_recent (lookup r s.last_audio_sent_at) grace now

-- `a < b` for ratios of counts.
abbrev pub ratio_ltb : Ratio → Ratio → Bool
ratio_ltb a b = ltb (a.over * b.under) (b.over * a.under)

-- Whether the speech of a turn is long and dense enough to interrupt.
unfoldable pub is_sustained : Bool → TurnUpdate → Stream → Bool
is_sustained has_client_candidate u s =
    not (
      ltb u.speech_duration_ms (
        if has_client_candidate
        then s.settings.barge_in_confirmation_ms
        else s.settings.barge_in_backend_confirmation_ms))
    && not (
        ratio_ltb u.speech_frame_ratio (
          if has_client_candidate
          then s.settings.barge_in_min_speech_ratio
          else s.settings.barge_in_backend_min_speech_ratio))

-- The confirmation itself, and the response that is then to be cancelled, if any.
unfoldable pub confirm_candidate : String → Bool → ℕ → Stream → Stream × Option String
confirm_candidate r has_client_candidate now s =
    let barge_in =
      if has_client_candidate
      then s.barge_in
      else (backend_candidate s.turn_id r now s.barge_in).0 in
    let (barge_in', transition) = confirm "sustained_speech" now barge_in in
    let s' : Stream = record s { barge_in = barge_in' } in
    elim transition [
      | none ↦ (s', none)
      | some t ↦
          (emit user_barge_in_confirmed "barge_in" none (about_response r t.reason_code) s', some r)
    ]

-- `_confirm_barge_in_from_vad`, up to its call of `_cancel_response`.
unfoldable pub confirm_active : Option String → TurnUpdate → ℕ → Stream → Stream × Option String
unfolding confirm_candidate is_in_echo_grace is_sustained
confirm_active none u now s = (s, none)
confirm_active (some r) u now s =
    let has_client_candidate = is_some s.barge_in.current_candidate in
    if str_eq r ""
    then (s, none)
    else if not (is_sustained has_client_candidate u s)
    then (s, none)
    else if not has_client_candidate && is_in_echo_grace r now s
    then (s, none)
    else confirm_candidate r has_client_candidate now s

unfoldable pub confirm_from_vad : TurnUpdate → ℕ → Stream → Stream × Option String
unfolding confirm_active
confirm_from_vad u now s = confirm_active s.active_response_id u now s

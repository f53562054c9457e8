-- ===== src/Pipeline/Stream/Confirming.antt =====
-- What the confirmation of an interruption comes to.
use voice_mesh.Prelude.{ℕ, ◌≡◌, String, true, false, none, some, arith, str_eq, is_text}
use voice_mesh.Events.Schemas.{user_barge_in_confirmed}
use voice_mesh.Pipeline.BargeIn.{BargeInCandidate, rejected}
use voice_mesh.Pipeline.BargeIn.Candidates.{confirm_stale}
use voice_mesh.Pipeline.TurnDetector.{TurnUpdate}
use voice_mesh.Pipeline.Stream.{Stream, about_response, emit}
use voice_mesh.Pipeline.Stream.Interrupting.{
  is_sustained, confirm_candidate, confirm_from_vad, confirm_active,
}

-- Sustained speech while the candidate belongs to another response than the coordinator's active one:
-- the coordinator rejects the candidate as stale, and the module yet reports a confirmed interruption
-- and goes on to cancel the response that is playing.
pub stale_candidate_cancels :
    (x : BargeInCandidate) (r : String) (u : TurnUpdate) (now : ℕ) (s : Stream)
    → s.active_response_id ≡ some r
    → str_eq r "" ≡ false
    → s.barge_in.current_candidate ≡ some x
    → is_text x.response_id s.barge_in.active_response_id ≡ false
    → is_sustained true u s ≡ true
    → let (s', cancelled) = confirm_from_vad u now s in
      (cancelled ≡ some r)
      × (s'.barge_in.state ≡ rejected)
      × (s'.published
          ≡ (emit user_barge_in_confirmed "barge_in" none
              (about_response r "stale_response")
              s).published)
unfolding confirm_from_vad confirm_active confirm_candidate emit
stale_candidate_cancels x r u now s a e c f k =
    ground (arith, confirm_stale x "sustained_speech" now s.barge_in c f)

-- ===== src/Pipeline/BargeIn/Effects.antt =====
-- All methods of the coordinator as one step.
use voice_mesh.Prelude.{ℕ, String, none}
use voice_mesh.Prelude.Int.{ℤ}
use voice_mesh.Pipeline.BargeIn.{
  BargeInCandidate, BargeInSemantic, BargeInCoordinator, Reply, set_assistant_playing,
  assistant_finished, playback_progress, offer, backend_candidate, reject, reject_expired, confirm,
}
use voice_mesh.Pipeline.BargeIn.Cancelling.{
  begin_cancelling, finish_cancelled, set_resolving, resolved,
}

pub data Op : Type 0 where
  playing : String → String → Op
  finished : String → Op
  progress : String → String → ℤ → ℤ → ℕ → Op
  offering : BargeInCandidate → Op
  detecting : String → String → ℕ → Op
  rejecting : String → Op
  expiring : ℕ → Op
  confirming : String → ℕ → Op
  cancelling : String → Op
  cancelled : String → ℕ → Op
  resolving : Op
  resolving_as : BargeInSemantic → Op

unfoldable pub step : BargeInCoordinator → Op → Reply
step c (playing t r) = (set_assistant_playing t r c, none)
step c (finished r) = assistant_finished r c
step c (progress t r n ms now) = ((playback_progress t r n ms now c).0, none)
step c (offering x) = offer x c
step c (detecting t r now) = backend_candidate t r now c
step c (rejecting reason) = reject reason c
step c (expiring now) = reject_expired now c
step c (confirming reason now) = confirm reason now c
step c (cancelling r) = begin_cancelling r c
step c (cancelled r now) = finish_cancelled r now c
step c resolving = (set_resolving c, none)
step c (resolving_as s) = (resolved s c, none)

abbrev pub next : BargeInCoordinator → Op → BargeInCoordinator
next c op = (step c op).0

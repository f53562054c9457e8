-- ===== src/Pipeline/BargeIn/Duplicates.antt =====
-- A candidate is processed once.
use voice_mesh.Prelude.{
  String, ℕ, ◌≡◌, true, Option, none, some, List, arith, has_text, has_text-add_text,
  has_text-add_text_self, is_text, or_text,
}
use voice_mesh.Prelude.Traces.{run, run_induction}
use voice_mesh.Pipeline.BargeIn.{
  BargeInCandidate, BargeInCoordinator, set_assistant_playing, about, assistant_finished,
  playback_progress, offer, of_backend, backend_candidate, reject, reject_expired, confirm,
  confirm_with, confirm_found, reject_found, reject_expired_found,
}
use voice_mesh.Pipeline.BargeIn.Cancelling.{
  begin_cancelling, finish_cancelled, set_resolving, resolved, processed_with,
}
use voice_mesh.Pipeline.BargeIn.Effects.{
  Op, step, next, playing, offering, detecting, rejecting, expiring, confirming, cancelled,
}

abbrev IsProcessed : String → BargeInCoordinator → Type 0
IsProcessed i c = has_text i c.processed_candidate_ids ≡ true

duplicate :
    (x : BargeInCandidate) (c : BargeInCoordinator)
    → IsProcessed x.barge_in_id c
    → offer x c ≡ (c, about x c.state "duplicate_candidate" true)
unfolding offer
duplicate x c h = rw h

IsProcessed-offer :
    (i : String) (x : BargeInCandidate) (c : BargeInCoordinator)
    → IsProcessed i c
    → IsProcessed i (offer x c).0
unfolding offer
IsProcessed-offer i x c h =
    ground (arith, has_text-add_text i x.barge_in_id c.processed_candidate_ids)

processed-add :
    (i : String) (o : Option BargeInCandidate) (ids : List String)
    → has_text i ids ≡ true
    → has_text i (processed_with o ids) ≡ true
processed-add i none ids h = h
processed-add i (some x) ids h = has_text-add_text i x.barge_in_id ids h

IsProcessed-found :
    (i reason : String) (o : Option BargeInCandidate) (c : BargeInCoordinator)
    → IsProcessed i c
    → IsProcessed i (reject_found o reason c).0
IsProcessed-found i reason none c h = h
IsProcessed-found i reason (some x) c h =
    has_text-add_text i x.barge_in_id c.processed_candidate_ids h

IsProcessed-expired :
    (i : String) (o : Option BargeInCandidate) (now : ℕ) (c : BargeInCoordinator)
    → IsProcessed i c
    → IsProcessed i (reject_expired_found o now c).0
IsProcessed-expired i none now c h = h
IsProcessed-expired i (some x) now c h =
    ground (arith, IsProcessed-found i "candidate_timeout" c.current_candidate c)

IsProcessed-confirm :
    (i reason : String) (x : BargeInCandidate) (c : BargeInCoordinator)
    → IsProcessed i c
    → IsProcessed i (confirm_with x reason c).0
unfolding confirm_with
IsProcessed-confirm i reason x c h =
    ground (arith, IsProcessed-found i "stale_response" c.current_candidate c)

IsProcessed-confirm_found :
    (i reason : String) (o : Option BargeInCandidate) (now : ℕ) (c : BargeInCoordinator)
    → IsProcessed i c
    → IsProcessed i (confirm_found o reason now c).0
unfolding confirm_found
IsProcessed-confirm_found i reason (some x) now c h = IsProcessed-confirm i reason x c h
IsProcessed-confirm_found i reason none now c h = ground (
  arith,
  IsProcessed-confirm i reason
      (of_backend c.call_id (or_text c.active_turn_id "") (or_text c.active_response_id "") now) c,
)

IsProcessed-step :
    (i : String) (c : BargeInCoordinator) (op : Op) → IsProcessed i c → IsProcessed i (next c op)
unfolding step set_assistant_playing assistant_finished playback_progress reject reject_expired
    confirm begin_cancelling finish_cancelled set_resolving resolved
IsProcessed-step i c (playing t r) h = h
IsProcessed-step i c (offering x) h = IsProcessed-offer i x c h
IsProcessed-step i c (detecting t r now) h =
    unfold backend_candidate in IsProcessed-offer i (of_backend c.call_id t r now) c h
IsProcessed-step i c (rejecting reason) h = IsProcessed-found i reason c.current_candidate c h
IsProcessed-step i c (expiring now) h = IsProcessed-expired i c.current_candidate now c h
IsProcessed-step i c (confirming reason now) h =
    IsProcessed-confirm_found i reason c.current_candidate now c h
IsProcessed-step i c (cancelled r now) h =
    ground (arith, processed-add i c.current_candidate c.processed_candidate_ids)
IsProcessed-step i c _ h = ground arith

-- A candidate whose identifier is processed leaves the coordinator, after whatever further calls, as
-- it is, and its reply is marked as a duplicate.
pub processed_duplicate :
    (x : BargeInCandidate) (c : BargeInCoordinator) (ops : List Op)
    → has_text x.barge_in_id c.processed_candidate_ids ≡ true
    → let d = run next c ops in offer x d ≡ (d, about x d.state "duplicate_candidate" true)
processed_duplicate x c ops h =
    duplicate x (run next c ops)
      (run_induction next (IsProcessed x.barge_in_id) (IsProcessed-step x.barge_in_id) c ops h)

reject-IsProcessed :
    (x : BargeInCandidate) (reason : String) (c : BargeInCoordinator)
    → c.current_candidate ≡ some x
    → IsProcessed x.barge_in_id (reject reason c).0
unfolding reject
reject-IsProcessed x reason c e =
    rw (e) (has_text-add_text_self x.barge_in_id c.processed_candidate_ids)

cancelled-IsProcessed :
    (x : BargeInCandidate) (r : String) (now : ℕ) (c : BargeInCoordinator)
    → c.current_candidate ≡ some x
    → is_text r c.active_response_id ≡ true
    → IsProcessed x.barge_in_id (finish_cancelled r now c).0
unfolding finish_cancelled
cancelled-IsProcessed x r now c e a =
    rw (a, e) (has_text-add_text_self x.barge_in_id c.processed_candidate_ids)

-- Once its current candidate is rejected, or its active response cancelled, the coordinator answers
-- every later offer of that candidate, after whatever further calls, as a duplicate and unchanged.
pub settled_duplicate :
    (x : BargeInCandidate) (reason r : String) (now : ℕ) (c : BargeInCoordinator) (ops : List Op)
    → c.current_candidate ≡ some x
    → is_text r c.active_response_id ≡ true
    → (let d = run next (reject reason c).0 ops in
        offer x d ≡ (d, about x d.state "duplicate_candidate" true))
      × (let d = run next (finish_cancelled r now c).0 ops in
          offer x d ≡ (d, about x d.state "duplicate_candidate" true))
settled_duplicate x reason r now c ops e a = (
  processed_duplicate x (reject reason c).0 ops (reject-IsProcessed x reason c e),
  processed_duplicate x (finish_cancelled r now c).0 ops (cancelled-IsProcessed x r now c e a),
)

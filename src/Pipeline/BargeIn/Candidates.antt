-- ===== src/Pipeline/BargeIn/Candidates.antt =====
-- The protocol of a confirmed interruption.
use voice_mesh.Prelude.{
  String, ℕ, ◌≡◌, refl, true, false, none, some, arith, has_text, has_text-add_text_self, is_text,
  or_text,
}
use voice_mesh.Prelude.Dict.{lookup, insert, lookup-insert_self}
use voice_mesh.Pipeline.BargeIn.{
  candidate, confirmed, cancelling, cancelled, BargeInCandidate, BargeInCoordinator, offer, reject,
  reject_found, confirm, confirm_with, confirm_found,
}
use voice_mesh.Pipeline.BargeIn.Cancelling.{
  begin_cancelling, finish_cancelled, cursor_or, unplayed, processed_with,
}
use voice_mesh.Pipeline.BargeIn.Effects.{Op, step, next}

next-offering :
    (x : BargeInCandidate) (c : BargeInCoordinator)
    → has_text x.barge_in_id c.processed_candidate_ids ≡ false
    → is_text x.response_id c.active_response_id ≡ true
    → next c (Op.offering x) ≡ record c { current_candidate = some x; state = candidate }
unfolding step offer
next-offering x c f a = ground arith

next-confirming :
    (x : BargeInCandidate) (reason : String) (now : ℕ) (c : BargeInCoordinator)
    → c.current_candidate ≡ some x
    → is_text x.response_id c.active_response_id ≡ true
    → next c (Op.confirming reason now) ≡ record c { current_candidate = some x; state = confirmed }
unfolding step confirm confirm_found confirm_with
next-confirming x reason now c e a = ground arith

next-cancelling :
    (r : String) (c : BargeInCoordinator)
    → is_text r c.active_response_id ≡ true
    → next c (Op.cancelling r) ≡ record c { state = cancelling }
unfolding step begin_cancelling
next-cancelling r c a = ground arith

next-cancelled :
    (r : String) (now : ℕ) (c : BargeInCoordinator)
    → is_text r c.active_response_id ≡ true
    → next c (Op.cancelled r now) ≡ record c {
      interrupted_responses =
          insert r
            (cursor_or c.playback_cursor (unplayed (or_text c.active_turn_id "unknown") r now))
            c.interrupted_responses;
      processed_candidate_ids = processed_with c.current_candidate c.processed_candidate_ids;
      current_candidate = none;
      state = cancelled;
    }
unfolding step finish_cancelled
next-cancelled r now c a = ground arith

-- A coordinator that plays response `r` and is offered a fresh candidate `x` for it, then confirms,
-- begins to cancel and is cancelled, ends CANCELLED without a current candidate, has processed `x`,
-- and keeps for `r` the cursor that it had, or one at the start of the response.
pub interruption_protocol :
    (x : BargeInCandidate) (reason r : String) (t₁ t₂ : ℕ) (c : BargeInCoordinator)
    → is_text r c.active_response_id ≡ true
    → is_text x.response_id c.active_response_id ≡ true
    → has_text x.barge_in_id c.processed_candidate_ids ≡ false
    → let d =
        next
          (next (next (next c (Op.offering x)) (Op.confirming reason t₁)) (Op.cancelling r))
          (Op.cancelled r t₂) in
      (d.state ≡ cancelled)
      × (d.current_candidate ≡ none)
      × (has_text x.barge_in_id d.processed_candidate_ids ≡ true)
      × (lookup r d.interrupted_responses
          ≡ some (cursor_or c.playback_cursor (unplayed (or_text c.active_turn_id "unknown") r t₂)))
interruption_protocol x reason r t₁ t₂ c a e f =
    let offered : BargeInCoordinator = record c { current_candidate = some x; state = candidate } in
    let sure : BargeInCoordinator = record c { current_candidate = some x; state = confirmed } in
    let ending : BargeInCoordinator = record c { current_candidate = some x; state = cancelling } in
    rw
      (
        next-offering x c f e,
        next-confirming x reason t₁ offered refl e,
        next-cancelling r sure a,
        next-cancelled r t₂ ending a,
      )
      (
        refl,
        refl,
        has_text-add_text_self x.barge_in_id c.processed_candidate_ids,
        lookup-insert_self r _ c.interrupted_responses,
      )

-- A candidate of another response than the active one is rejected by its confirmation.
pub confirm_stale :
    (x : BargeInCandidate) (reason : String) (now : ℕ) (c : BargeInCoordinator)
    → c.current_candidate ≡ some x
    → is_text x.response_id c.active_response_id ≡ false
    → confirm reason now c ≡ reject_found (some x) "stale_response" c
unfolding confirm confirm_found confirm_with reject
confirm_stale x reason now c e f = ground arith

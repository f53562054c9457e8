-- ===== src/Pipeline/Queue/Corking.antt =====
-- How `_observe_locked` moves the cork, and what it reports.
use voice_mesh.Prelude.{
  ℕ, ◌≡◌, Bool, true, false, Option, none, some, arith, leb, if◌then◌else◌, length,
}
use voice_mesh.Pipeline.Queue.{FlowControlledQueue, BackpressureTransition, observe_locked}
use voice_mesh.Pipeline.Queue.Invariant.{IsStored}

-- A trigger with hysteresis: on from the high watermark, off from the low one, else as it was.
abbrev pub trigger : ℕ → ℕ → Bool → ℕ → Bool
trigger low high on depth = if leb high depth then true else if leb depth low then false else on

module _ {T : Type 0} where
  -- Whenever the cork flags and the entries agree, `_observe_locked` sets the cork as a trigger
  -- with hysteresis between the two watermarks does.
  pub observe-eq-trigger :
      (q : FlowControlledQueue T) (now : ℕ)
      → IsStored q
      → (observe_locked q now).0.corked
        ≡ trigger q.low_watermark q.high_watermark q.corked q.depth_weight
  unfolding observe_locked
  observe-eq-trigger q now h = ground arith

  -- A report of the queue as it is.
  abbrev pub Reports : FlowControlledQueue T → Option BackpressureTransition → Type 0
  Reports q none = Unit
  Reports q (some t) =
      (t.corked ≡ q.corked)
      × (t.hard_limited ≡ q.hard_limited)
      × (t.depth ≡ q.depth_weight)
      × (t.item_count ≡ length q.entries)

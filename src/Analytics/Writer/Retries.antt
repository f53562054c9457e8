-- ===== src/Analytics/Writer/Retries.antt =====
-- The retries come to an end.
use voice_mesh.Prelude.{
  ℕ, zero, suc, ◌*◌, ◌-◌, ◌≤◌, ◌<◌, ◌≡◌, ◌≢◌, refl, Bool, true, false, List, arith, ltb,
  if◌then◌else◌,
}
use voice_mesh.Analytics.Writer.{
  WriterConfig, Writer, RetryOutcome, returned, raised, out_of_fuel, add_all, insert_with_retry,
}

retried_ends :
    {S : Type 0} (b d : Bool) (later : RetryOutcome × S) (s : S)
    → (d ≡ false → later.0 ≢ out_of_fuel)
    → (if b then (returned, s) else if d then (raised, s) else later).0 ≢ out_of_fuel
retried_ends true d later s h = λ e. cc
retried_ends false true later s h = λ e. cc
retried_ends false false later s h = h refl

module _ {R : Type 0} (accepts : ℕ → List R → Bool) where
  -- However many inserts fail, the retries end: the delay doubles from at least one millisecond until
  -- it passes the longest, so more passes than the longest delay exceeds the first are enough.
  pub insert_with_retry_ends :
      (c : WriterConfig) (now max_retry fuel delay : ℕ) (rows : List R) (w : Writer R)
      → 1 ≤ delay
      → suc max_retry - delay < fuel
      → (insert_with_retry accepts c now max_retry fuel delay rows w).0 ≢ out_of_fuel
  unfolding insert_with_retry
  insert_with_retry_ends c now max_retry zero delay rows w h k = absurd (omega arith)
  insert_with_retry_ends c now max_retry (suc fuel) delay rows w h k =
      let (ok, w') = add_all accepts c now rows w in
      retried_ends ok (ltb max_retry delay) _ w' (λ e.
        insert_with_retry_ends c now max_retry fuel (delay * 2) rows w' (omega arith)
          (ground arith))

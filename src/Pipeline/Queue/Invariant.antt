-- ===== src/Pipeline/Queue/Invariant.antt =====
-- What holds of a queue between two locked sections, and that every section keeps it.
use voice_mesh.Prelude.{
  ℕ, ◌+◌, ◌-◌, ◌≤◌, ◌<◌, ◌≡◌, refl, Bool, true, false, List, [], ◌∷◌, ◌++◌, arith, length,
  length-append, ap, is_some,
}
use voice_mesh.Prelude.Int.{clamp_zero}
use voice_mesh.Pipeline.Queue.{
  Config, FlowControlledQueue, created, after, init, observe_locked, put_locked, get_entries,
  get_locked, close, cancel, flush_loop, flush_locked,
}

module _ {T : Type 0} where
  -- The weight of the entries.
  abbrev pub total : List (T × ℕ) → ℕ
  total [] = 0
  total ((x, w) ∷ es) = w + total es

  -- The order of the watermarks that the constructor checks.
  pub record IsConfig (c : Config T) : Type 0 where
    pub low_high : c.low_watermark < c.high_watermark
    pub high_hard : c.high_watermark ≤ c.hard_limit

  -- What the entries and the flags say of one another before `_observe_locked` looks at them.
  pub record IsStored (q : FlowControlledQueue T) : Type 0 where
    pub config_ok : IsConfig q.config
    pub depth_total : q.depth_weight ≡ total q.entries
    pub hard_corked : q.hard_limited ≡ true → q.corked ≡ true
    pub timed : is_some q.corked_at ≡ q.corked
    pub fits : length q.entries ≤ q.max_items
    pub cancelled_closed : q.cancelled ≡ true → (q.closed ≡ true) × (q.entries ≡ [])

  -- The flags agree with the watermarks.
  pub record IsFlagged (q : FlowControlledQueue T) : Type 0 where
    pub corked_above : q.corked ≡ true → q.low_watermark < q.depth_weight
    pub open_below : q.corked ≡ false → q.depth_weight < q.high_watermark
    pub soft_below : q.hard_limited ≡ false → q.depth_weight < q.hard_limit

  pub record IsValid (q : FlowControlledQueue T) : Type 0 where
    pub stored : IsStored q
    pub flagged : IsFlagged q

  pub total-append : (es fs : List (T × ℕ)) → total (es ++ fs) ≡ total es + total fs
  total-append [] fs = omega arith
  total-append ((x, w) ∷ es) fs = omega (arith, total-append es fs)

  pub observe-IsValid :
      (q : FlowControlledQueue T) (now : ℕ) → IsStored q → IsValid (observe_locked q now).0
  unfolding observe_locked
  observe-IsValid q now h = ground arith

  pub init-IsValid : (c : Config T) {q : FlowControlledQueue T} → init c ≡ created q → IsValid q
  unfolding init
  init-IsValid c e = ground arith

  pushed-IsStored :
      (x : T) (w : ℕ) (q : FlowControlledQueue T)
      → length q.entries < q.max_items
      → q.cancelled ≡ false
      → IsStored q
      → IsStored
          (record q { entries = q.entries ++ (x, w) ∷ []; depth_weight = q.depth_weight + w })
  pushed-IsStored x w q room c h =
      ground (arith, total-append q.entries ((x, w) ∷ []), length-append q.entries ((x, w) ∷ []))

  pub put-IsValid :
      (x : T) (now : ℕ) (q : FlowControlledQueue T)
      → IsValid q
      → IsValid (after q (put_locked x now q))
  unfolding put_locked
  put-IsValid x now q h =
      let w = clamp_zero (q.weight_fn x) in
      ground (
        arith,
        pushed-IsStored x w q,
        observe-IsValid
            (record q { entries = q.entries ++ (x, w) ∷ []; depth_weight = q.depth_weight + w })
            now,
      )

  get_entries-IsValid :
      (es : List (T × ℕ)) (now : ℕ) (q : FlowControlledQueue T)
      → q.entries ≡ es
      → IsValid q
      → IsValid (after q (get_entries es now q))
  unfolding get_entries
  get_entries-IsValid [] now q e h = ground arith
  get_entries-IsValid ((x, w) ∷ rest) now q e h =
      observe-IsValid (record q { entries = rest; depth_weight = q.depth_weight - w }) now
        (ground (arith, ap total e, ap length e))

  pub get-IsValid :
      (now : ℕ) (q : FlowControlledQueue T) → IsValid q → IsValid (after q (get_locked now q))
  unfolding get_locked
  get-IsValid now q h = get_entries-IsValid q.entries now q refl h

  flush_depth : (p : T → Bool) (es : List (T × ℕ)) → (flush_loop p es).2 ≡ total (flush_loop p es).1
  unfolding flush_loop
  flush_depth p [] = refl
  flush_depth p ((x, w) ∷ es) = ground (arith, flush_depth p es)

  flush_shorter : (p : T → Bool) (es : List (T × ℕ)) → length (flush_loop p es).1 ≤ length es
  unfolding flush_loop
  flush_shorter p [] = omega arith
  flush_shorter p ((x, w) ∷ es) = ground (arith, flush_shorter p es)

  pub flush-IsValid :
      (p : T → Bool) (now : ℕ) (q : FlowControlledQueue T)
      → IsValid q
      → IsValid (after q (flush_locked p now q))
  unfolding flush_locked
  flush-IsValid p now q h =
      let (removed, kept, depth) = flush_loop p q.entries in
      observe-IsValid (record q { entries = kept; depth_weight = depth }) now
        (ground (arith, flush_depth p q.entries, flush_shorter p q.entries))

  pub close-IsValid : (q : FlowControlledQueue T) → IsValid q → IsValid (close q)
  unfolding close
  close-IsValid q h = ground arith

  pub cancel-IsValid : (q : FlowControlledQueue T) → IsValid q → IsValid (cancel q)
  unfolding cancel
  cancel-IsValid q h = ground arith

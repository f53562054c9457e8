-- ===== src/Pipeline/Queue/Closing.antt =====
-- What becomes of a queue that consumers drain, and of one that is closed, cancelled or flushed.
use mathlib.Core.List.{append-nil}
use voice_mesh.Prelude.{
  ℕ, ◌≤◌, ◌≡◌, refl, ap, Bool, true, false, not, none, List, [], ◌∷◌, ◌-◌, map, arith, length,
  select,
}
use voice_mesh.Prelude.Traces.{run}
use voice_mesh.Pipeline.Queue
use voice_mesh.Pipeline.Queue.{
  FlowControlledQueue, through, after, put_locked, get_locked, get_entries, flush_locked,
  flush_loop, observe_locked, wait_until_uncorked, queue_closed,
}
use voice_mesh.Pipeline.Queue.Invariant.{IsValid, get-IsValid}
use voice_mesh.Pipeline.Queue.Schedule.{Action, put, get, flush, close, cancel, Ledger, act}

module _ {T : Type 0} where
  flags-observe :
      (q : FlowControlledQueue T) (now : ℕ)
      → ((observe_locked q now).0.entries ≡ q.entries)
        × ((observe_locked q now).0.closed ≡ q.closed)
        × ((observe_locked q now).0.cancelled ≡ q.cancelled)
  unfolding observe_locked
  flags-observe q now = ground arith

  entries-get :
      (es : List (T × ℕ)) (now : ℕ) (q : FlowControlledQueue T)
      → q.entries ≡ es
      → length (after q (get_entries es now q)).entries ≤ length es - 1
  unfolding get_entries
  entries-get [] now q e = ground (arith, ap length e)
  entries-get ((x, w) ∷ es) now q e =
      ground
        (arith, flags-observe (record q { entries = es; depth_weight = q.depth_weight - w }) now)

  empty_uncorked :
      (q : FlowControlledQueue T)
      → IsValid q
      → length q.entries ≤ 0
      → (q.entries ≡ []) × (q.corked ≡ false) × (wait_until_uncorked q ≡ through tt q none)
  unfolding wait_until_uncorked
  empty_uncorked q h e = grind arith

  -- As many gets as a valid queue has entries, at any times, empty it and take the cork out, so that
  -- every producer that waits at the gate passes.
  pub drain_uncorks :
      (l : Ledger T) (times : List ℕ)
      → IsValid l.queue
      → length l.queue.entries ≤ length times
      → let q = (run act l (map get times)).queue in
        (q.entries ≡ []) × (q.corked ≡ false) × (wait_until_uncorked q ≡ through tt q none)
  drain_uncorks l [] h e = empty_uncorked l.queue h e
  drain_uncorks l (now ∷ times) h e =
      drain_uncorks (act l (get now)) times (unfold act in get-IsValid now l.queue h)
        (unfold act get_locked in omega (arith, e, entries-get l.queue.entries now l.queue refl))

  closed-get :
      (es : List (T × ℕ)) (now : ℕ) (q : FlowControlledQueue T)
      → q.entries ≡ es
      → ((after q (get_entries es now q)).closed ≡ q.closed)
        × ((after q (get_entries es now q)).cancelled ≡ q.cancelled)
  unfolding get_entries
  closed-get [] now q e = ground arith
  closed-get ((x, w) ∷ es) now q e =
      ground
        (arith, flags-observe (record q { entries = es; depth_weight = q.depth_weight - w }) now)

  -- A closed queue takes nothing in.
  pub record IsClosed (xs : List T) (l : Ledger T) : Type 0 where
    pub shut : l.queue.closed ≡ true
    pub same : l.accepted ≡ xs

  act-IsClosed : (xs : List T) (l : Ledger T) (a : Action T) → IsClosed xs l → IsClosed xs (act l a)
  unfolding act put_locked get_locked flush_locked Queue.close Queue.cancel
  act-IsClosed xs l (put x now) h = ground (arith, append-nil l.accepted)
  act-IsClosed xs l (get now) h = ground (arith, closed-get l.queue.entries now l.queue refl)
  act-IsClosed xs l (flush p now) h =
      let (out, kept, depth) = flush_loop p l.queue.entries in
      ground (arith, flags-observe (record l.queue { entries = kept; depth_weight = depth }) now)
  act-IsClosed xs l close h = ground arith
  act-IsClosed xs l cancel h = ground arith

  -- A cancelled queue neither takes in nor gives out.
  pub record IsCancelled (start l : Ledger T) : Type 0 where
    pub stopped : l.queue.cancelled ≡ true
    pub bare : l.queue.entries ≡ []
    pub accepted : l.accepted ≡ start.accepted
    pub delivered : l.delivered ≡ start.delivered
    pub flushed : l.flushed ≡ start.flushed

  got-cancelled :
      (es : List (T × ℕ)) (now : ℕ) (q : FlowControlledQueue T)
      → q.entries ≡ es
      → q.entries ≡ []
      → q.cancelled ≡ true
      → (get_entries es now q ≡ through (queue_closed q.stage) q none)
  unfolding get_entries
  got-cancelled [] now q e n c = ground arith
  got-cancelled ((x, w) ∷ es) now q e n c = cc

  flush_bare :
      (p : T → Bool) (es : List (T × ℕ))
      → es ≡ []
      → ((flush_loop p es).0 ≡ []) × ((flush_loop p es).1 ≡ [])
  unfolding flush_loop
  flush_bare p [] e = (refl, refl)
  flush_bare p (x ∷ es) e = cc

  act-IsCancelled : (s l : Ledger T) (a : Action T) → IsCancelled s l → IsCancelled s (act l a)
  unfolding act put_locked get_locked flush_locked flush_loop Queue.close Queue.cancel
  act-IsCancelled s l (put x now) h = ground (arith, append-nil l.accepted)
  act-IsCancelled s l (get now) h =
      ground (arith, got-cancelled l.queue.entries now l.queue refl, append-nil l.delivered)
  act-IsCancelled s l (flush p now) h =
      let (out, kept, depth) = flush_loop p l.queue.entries in
      ground (
        arith,
        flags-observe (record l.queue { entries = kept; depth_weight = depth }) now,
        flush_bare p l.queue.entries,
        append-nil l.flushed,
      )
  act-IsCancelled s l close h = ground arith
  act-IsCancelled s l cancel h = ground arith

  flush_loop-select :
      (p : T → Bool) (es : List (T × ℕ))
      → ((flush_loop p es).0 ≡ select p (map (λ e. e.0) es))
        × ((flush_loop p es).1 ≡ select (λ e. not (p e.0)) es)
  unfolding flush_loop
  flush_loop-select p [] = (refl, refl)
  flush_loop-select p ((x, w) ∷ es) = ground (arith, flush_loop-select p es)

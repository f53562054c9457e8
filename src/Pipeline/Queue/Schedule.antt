-- ===== src/Pipeline/Queue/Schedule.antt =====
-- Every interleaving of the tasks that share a queue, as a list of locked sections, with a ledger of
-- the items. The gate of `put` changes nothing, so a push may come at any point of a schedule.
use mathlib.Core.List.{Sublist, sublist-append_left, append-nil, append_assoc, map-append}
use mathlib.Core.List.Sublist
use voice_mesh.Prelude.{
  ℕ, ◌+◌, ◌≡◌, refl, ap, ◌-◌, Bool-cases, inl, inr, Bool, ◌||◌, List, [], ◌∷◌, ◌++◌, map, arith,
  if◌then◌else◌,
}
use voice_mesh.Prelude.Traces.{run, run_induction}
use voice_mesh.Prelude.Int.{clamp_zero}
use voice_mesh.Pipeline.Queue
use voice_mesh.Pipeline.Queue.{
  FlowControlledQueue, Section, waiting, through, after, Got, item, queue_closed, put_locked,
  get_locked, get_entries, flush_locked, flush_loop, observe_locked,
}
use voice_mesh.Pipeline.Queue.Invariant.{
  IsValid, put-IsValid, get-IsValid, flush-IsValid, close-IsValid, cancel-IsValid,
}

pub data Action (T : Type 0) : Type 0 where
  put : T → ℕ → Action T
  get : ℕ → Action T
  flush : (T → Bool) → ℕ → Action T
  close : Action T
  cancel : Action T

-- The queue with the items that it took in, handed out, flushed out and dropped by `cancel`.
pub record Ledger (T : Type 0) : Type 0 where
  pub queue : FlowControlledQueue T
  pub accepted : List T
  pub delivered : List T
  pub flushed : List T
  pub dropped : List T

module _ {T : Type 0} where
  abbrev pub contents : FlowControlledQueue T → List T
  contents q = map (λ e. e.0) q.entries

  abbrev taken : T → FlowControlledQueue T → Section T (Unit {0}) → List T
  taken x q waiting = []
  taken x q (through _ _ _) = if q.closed || q.cancelled then [] else x ∷ []

  abbrev got : Section T (Got T) → List T
  got waiting = []
  got (through (item x) _ _) = x ∷ []
  got (through (queue_closed _) _ _) = []

  abbrev pub removed : Section T (List T) → List T
  removed waiting = []
  removed (through xs _ _) = xs

  unfoldable pub act : Ledger T → Action T → Ledger T
  act l (put x now) =
      let s = put_locked x now l.queue in
      record l { queue = after l.queue s; accepted = l.accepted ++ taken x l.queue s }
  act l (get now) =
      let s = get_locked now l.queue in
      record l { queue = after l.queue s; delivered = l.delivered ++ got s }
  act l (flush p now) =
      let s = flush_locked p now l.queue in
      record l { queue = after l.queue s; flushed = l.flushed ++ removed s }
  act l close = record l { queue = Queue.close l.queue }
  act l cancel = record l { queue = Queue.cancel l.queue; dropped = l.dropped ++ contents l.queue }

  abbrev pub opened : FlowControlledQueue T → Ledger T
  opened q = record { queue = q; accepted = []; delivered = []; flushed = []; dropped = [] }

  act-IsValid : (l : Ledger T) (a : Action T) → IsValid l.queue → IsValid (act l a).queue
  unfolding act
  act-IsValid l (put x now) h = put-IsValid x now l.queue h
  act-IsValid l (get now) h = get-IsValid now l.queue h
  act-IsValid l (flush p now) h = flush-IsValid p now l.queue h
  act-IsValid l close h = close-IsValid l.queue h
  act-IsValid l cancel h = cancel-IsValid l.queue h

  -- After any schedule of puts, gets, flushes, closes and cancels from a valid queue, the queue is
  -- valid: its depth is the weight of its entries, these are at most `max_items`, and both flags
  -- agree with the watermarks.
  pub schedule-IsValid :
      (l : Ledger T) (actions : List (Action T))
      → IsValid l.queue
      → IsValid (run act l actions).queue
  schedule-IsValid = run_induction act (λ l. IsValid l.queue) act-IsValid

  -- The sum of a measure over the items of a list; with the indicator of a value it counts it.
  abbrev pub sum_of : (T → ℕ) → List T → ℕ
  sum_of f [] = 0
  sum_of f (x ∷ xs) = f x + sum_of f xs

  sum_of-append : (f : T → ℕ) (xs ys : List T) → sum_of f (xs ++ ys) ≡ sum_of f xs + sum_of f ys
  sum_of-append f [] ys = omega arith
  sum_of-append f (x ∷ xs) ys = omega (arith, sum_of-append f xs ys)

  abbrev pub Balanced : (T → ℕ) → Ledger T → Type 0
  Balanced f l =
      sum_of f l.accepted
      ≡ sum_of f l.delivered + sum_of f l.flushed + sum_of f l.dropped + sum_of f (contents l.queue)

  -- Every item that went out came in, in that order: what was delivered, then what still waits, is
  -- a part of what was accepted, in the same order.
  abbrev pub IsOrdered : Ledger T → Type 0
  IsOrdered l = Sublist (l.delivered ++ contents l.queue) l.accepted

  contents-observe :
      (q : FlowControlledQueue T) (now : ℕ) → contents (observe_locked q now).0 ≡ contents q
  unfolding observe_locked
  contents-observe q now = ground arith

  contents-put :
      (x : T) (now : ℕ) (q : FlowControlledQueue T)
      → contents (after q (put_locked x now q)) ≡ contents q ++ taken x q (put_locked x now q)
  unfolding put_locked
  contents-put x now q =
      let pushed = record q {
        entries = q.entries ++ (x, clamp_zero (q.weight_fn x)) ∷ [];
        depth_weight = q.depth_weight + clamp_zero (q.weight_fn x);
      } in
      ground (
        arith,
        contents-observe pushed now,
        append-nil (contents q),
        map-append (λ (e : T × ℕ). e.0) q.entries ((x, clamp_zero (q.weight_fn x)) ∷ []),
      )

  contents-get :
      (now : ℕ) (es : List (T × ℕ)) (q : FlowControlledQueue T)
      → q.entries ≡ es
      → got (get_entries es now q) ++ contents (after q (get_entries es now q)) ≡ contents q
  unfolding get_entries
  contents-get now [] q e = ground arith
  contents-get now ((x, w) ∷ es) q e =
      let popped = record q { entries = es; depth_weight = q.depth_weight - w } in
      ground (arith, contents-observe popped now, ap (map (λ (e : T × ℕ). e.0)) e)

  flush_balance :
      (f : T → ℕ) (p : T → Bool) (es : List (T × ℕ))
      → sum_of f (map (λ e. e.0) es)
        ≡ sum_of f (flush_loop p es).0 + sum_of f (map (λ e. e.0) (flush_loop p es).1)
  unfolding flush_loop
  flush_balance f p [] = omega arith
  flush_balance f p ((x, w) ∷ es) = ground (arith, flush_balance f p es)

  flush_order :
      (p : T → Bool) (es : List (T × ℕ))
      → Sublist (map (λ e. e.0) (flush_loop p es).1) (map (λ e. e.0) es)
  unfolding flush_loop
  flush_order p [] = Sublist.refl []
  flush_order p ((x, w) ∷ es) = elim (Bool-cases (p x)) [
    | inl out ↦ rw (out) (Sublist.cons x (flush_order p es))
    | inr stay ↦ rw (stay) (Sublist.cons-cons x (flush_order p es))
  ]

  act-Balanced : (f : T → ℕ) (l : Ledger T) (a : Action T) → Balanced f l → Balanced f (act l a)
  unfolding act Queue.close Queue.cancel get_locked flush_locked
  act-Balanced f l (put x now) h =
      let s = put_locked x now l.queue in
      rw
        (
          contents-put x now l.queue,
          sum_of-append f l.accepted (taken x l.queue s),
          sum_of-append f (contents l.queue) (taken x l.queue s),
        )
        (omega arith)
  act-Balanced f l (get now) h =
      let s = get_locked now l.queue in
      omega (
        arith,
        h,
        sum_of-append f l.delivered (got s),
        sum_of-append f (got s) (contents (after l.queue s)),
        ap (sum_of f) (contents-get now l.queue.entries l.queue refl),
      )
  act-Balanced f l (flush p now) h =
      let (out, kept, depth) = flush_loop p l.queue.entries in
      let q = record l.queue { entries = kept; depth_weight = depth } in
      rw (contents-observe q now)
        (omega (arith, h, sum_of-append f l.flushed out, flush_balance f p l.queue.entries))
  act-Balanced f l close h = h
  act-Balanced f l cancel h = omega (arith, h, sum_of-append f l.dropped (contents l.queue))

  act-IsOrdered : (l : Ledger T) (a : Action T) → IsOrdered l → IsOrdered (act l a)
  unfolding act Queue.close Queue.cancel get_locked flush_locked
  act-IsOrdered l (put x now) h =
      let s = put_locked x now l.queue in
      rw (contents-put x now l.queue, ← append_assoc)
        (Sublist.append h (Sublist.refl (taken x l.queue s)))
  act-IsOrdered l (get now) h = rw (append_assoc, contents-get now l.queue.entries l.queue refl) h
  act-IsOrdered l (flush p now) h =
      let (out, kept, depth) = flush_loop p l.queue.entries in
      let q = record l.queue { entries = kept; depth_weight = depth } in
      rw (contents-observe q now) (
        Sublist.trans (Sublist.append (Sublist.refl l.delivered) (flush_order p l.queue.entries)) h)
  act-IsOrdered l close h = h
  act-IsOrdered l cancel h =
      rw append-nil (Sublist.trans (sublist-append_left l.delivered (contents l.queue)) h)

  act-Accounted :
      (l : Ledger T) (a : Action T)
      → ((f : T → ℕ) → Balanced f l) × IsOrdered l
      → ((f : T → ℕ) → Balanced f (act l a)) × IsOrdered (act l a)
  act-Accounted l a h = (λ f. act-Balanced f l a (h.0 f), act-IsOrdered l a h.1)

  -- Over any schedule from an empty queue no item is lost, copied or overtaken: under every measure,
  -- what was accepted is what was delivered, flushed, dropped by `cancel` or still waits, and what
  -- was delivered followed by what still waits is a sublist of what was accepted.
  pub schedule_accounts :
      (q : FlowControlledQueue T) (actions : List (Action T)) (f : T → ℕ)
      → q.entries ≡ []
      → Balanced f (run act (opened q) actions) × IsOrdered (run act (opened q) actions)
  schedule_accounts q actions f e =
      let h =
        run_induction act (λ l. ((f : T → ℕ) → Balanced f l) × IsOrdered l) act-Accounted (opened q)
          actions (λ f. rw e (omega arith), rw e (Sublist.refl [])) in
      (h.0 f, h.1)

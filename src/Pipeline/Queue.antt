-- ===== src/Pipeline/Queue.antt =====
-- apps/api/pipeline/backpressure.py: FlowControlledQueue. A method that awaits is split at its
-- awaits into the sections that run under the condition's lock; a section whose wait does not end
-- yet is `waiting`. Weights, depths and times are numbers of one fixed unit.
pub mod Invariant
pub mod Corking
pub mod Schedule
pub mod Closing
mod Tests
use voice_mesh.Prelude.{
  ℕ, ◌+◌, ◌-◌, String, Bool, true, false, not, ◌&&◌, ◌||◌, Option, none, some, List, [], ◌∷◌, ◌++◌,
  leb, ltb, ◌==◌, if◌then◌else◌, length,
}
use voice_mesh.Prelude.Int.{ℤ, clamp_zero}

pub data DepthUnit : Type 0 where
  items speak_ahead_ms audio_ms bytes : DepthUnit

-- The reason codes that `_observe_locked` gives.
pub data ReasonCode : Type 0 where
  queue_high_watermark queue_low_watermark queue_hard_limit : ReasonCode

pub record BackpressureTransition : Type 0 where
  pub call_id : String
  pub stage : String
  pub corked : Bool
  pub reason_code : ReasonCode
  pub depth : ℕ
  pub depth_unit : DepthUnit
  pub hard_limited : Bool
  pub item_count : ℕ

-- The constructor's arguments that never change.
pub record Config (T : Type 0) : Type 0 where
  pub call_id : String
  pub stage : String
  pub depth_unit : DepthUnit
  pub low_watermark : ℕ
  pub high_watermark : ℕ
  pub hard_limit : ℕ
  pub weight_fn : T → ℤ
  pub max_items : ℕ

pub record FlowControlledQueue (T : Type 0) : Type 0 where
  pub config : Config T
  pub open config use *
  pub corked : Bool
  pub hard_limited : Bool
  pub depth_weight : ℕ
  pub corked_at : Option ℕ
  pub entries : List (T × ℕ)
  pub closed : Bool
  pub cancelled : Bool

pub data InitError : Type 0 where
  low_not_below_high high_above_hard : InitError

pub data InitResult (T : Type 0) : Type 0 where
  created : FlowControlledQueue T → InitResult T
  value_error : InitError → InitResult T

-- What a locked section comes to: it waits on, or it went through with a value, the queue that it
-- left and the transition that the caller then reports by `on_state_change`.
pub data Section (T A : Type 0) : Type 0 where
  waiting : Section T A
  through : A → FlowControlledQueue T → Option BackpressureTransition → Section T A

-- The queue after a section: a section that waits has changed nothing.
abbrev pub after : {T A : Type 0} → FlowControlledQueue T → Section T A → FlowControlledQueue T
after q waiting = q
after q (through _ q' _) = q'

-- `get` returns an item or raises QueueClosed.
pub data Got (T : Type 0) : Type 0 where
  item : T → Got T
  queue_closed : String → Got T

-- `self._corked_at or time.monotonic()`: a time of zero counts as none.
abbrev or_now : Option ℕ → ℕ → Option ℕ
or_now none now = some now
or_now (some t) now = if t == 0 then some now else some t

module _ {T : Type 0} where
  unfoldable pub init : Config T → InitResult T
  init c =
      if leb c.high_watermark c.low_watermark
      then value_error low_not_below_high
      else if ltb c.hard_limit c.high_watermark
      then value_error high_above_hard
      else created (record {
        config = c;
        corked = false;
        hard_limited = false;
        depth_weight = 0;
        corked_at = none;
        entries = [];
        closed = false;
        cancelled = false;
      })

  transition_of : FlowControlledQueue T → Bool → ReasonCode → Bool → BackpressureTransition
  transition_of q corked code hard_limited = record {
    call_id = q.call_id;
    stage = q.stage;
    corked = corked;
    reason_code = code;
    depth = q.depth_weight;
    depth_unit = q.depth_unit;
    hard_limited = hard_limited;
    item_count = length q.entries;
  }

  -- `_observe_locked` at the time `now`; the metrics are left out.
  unfoldable pub observe_locked :
      FlowControlledQueue T → ℕ → FlowControlledQueue T × Option BackpressureTransition
  unfolding transition_of
  observe_locked q now =
      if leb q.hard_limit q.depth_weight && not q.hard_limited
      then (
        record q { corked = true; hard_limited = true; corked_at = or_now q.corked_at now },
        some (transition_of q true queue_hard_limit true),
      )
      else if not q.corked && leb q.high_watermark q.depth_weight
      then (
        record q { corked = true; corked_at = some now },
        some (transition_of q true queue_high_watermark false),
      )
      else if q.corked && leb q.depth_weight q.low_watermark
      then (
        record q { corked = false; hard_limited = false; corked_at = none },
        some (transition_of q false queue_low_watermark false),
      )
      else (q, none)

  abbrev pub observed : {A : Type 0} → A → FlowControlledQueue T → ℕ → Section T A
  observed a q now = let (q', t) = observe_locked q now in through a q' t

  -- `wait_until_uncorked`, which a `put` that does not bypass the cork passes first.
  unfoldable pub wait_until_uncorked : FlowControlledQueue T → Section T (Unit {0})
  wait_until_uncorked q =
      if q.corked && not q.closed && not q.cancelled then waiting else through tt q none

  unfoldable pub put_locked : T → ℕ → FlowControlledQueue T → Section T (Unit {0})
  put_locked x now q =
      let weight = clamp_zero (q.weight_fn x) in
      if not q.closed && not q.cancelled && leb q.max_items (length q.entries)
      then waiting
      else if q.closed || q.cancelled
      then through tt q none
      else observed tt
          (record q {
            entries = q.entries ++ (x, weight) ∷ [];
            depth_weight = q.depth_weight + weight;
          })
          now

  -- `get` on the entries that it finds.
  get_entries : List (T × ℕ) → ℕ → FlowControlledQueue T → Section T (Got T)
  get_entries [] now q =
      if not q.closed && not q.cancelled then waiting else through (queue_closed q.stage) q none
  get_entries ((x, weight) ∷ rest) now q =
      observed (item x) (record q { entries = rest; depth_weight = q.depth_weight - weight }) now

  unfoldable pub get_locked : ℕ → FlowControlledQueue T → Section T (Got T)
  unfolding get_entries
  get_locked now q = get_entries q.entries now q

  unfoldable pub close : FlowControlledQueue T → FlowControlledQueue T
  close q = record q { closed = true }

  unfoldable pub cancel : FlowControlledQueue T → FlowControlledQueue T
  cancel q = record q {
    cancelled = true;
    closed = true;
    entries = [];
    depth_weight = 0;
    corked = false;
    hard_limited = false;
    corked_at = none;
  }

  -- The loop of `flush`: the items removed, the entries kept and the weight of these.
  unfoldable pub flush_loop : (T → Bool) → List (T × ℕ) → List T × List (T × ℕ) × ℕ
  flush_loop predicate [] = ([], [], 0)
  flush_loop predicate ((x, weight) ∷ rest) =
      let (removed, kept, depth) = flush_loop predicate rest in
      if predicate x
      then (x ∷ removed, kept, depth)
      else (removed, (x, weight) ∷ kept, weight + depth)

  unfoldable pub flush_locked : (T → Bool) → ℕ → FlowControlledQueue T → Section T (List T)
  flush_locked predicate now q =
      let (removed, kept, depth) = flush_loop predicate q.entries in
      observed removed (record q { entries = kept; depth_weight = depth }) now

-- ===== src/Pipeline/Queue/Tests.antt =====
-- The queue's theorems at a queue of numbers that weigh what they are.
use voice_mesh.Prelude.{ℕ, ◌≡◌, refl, Bool, true, false, none, some, List, [], ◌∷◌, map, arith, ltb}
use voice_mesh.Prelude.Int.{ℤ}
use voice_mesh.Prelude.Traces.{run}
use voice_mesh.Pipeline.Queue
use voice_mesh.Pipeline.Queue.{
  items, Config, FlowControlledQueue, init, through, after, observe_locked, put_locked, get_locked,
  flush_locked, wait_until_uncorked, created,
}
use voice_mesh.Pipeline.Queue.Invariant.{IsValid, init-IsValid}
use voice_mesh.Pipeline.Queue.Corking.{trigger, observe-eq-trigger}
use voice_mesh.Pipeline.Queue.Schedule.{
  Action, put, get, flush, close, Ledger, act, opened, Balanced, IsOrdered, schedule-IsValid,
  schedule_accounts,
}
use voice_mesh.Pipeline.Queue.Closing.{drain_uncorks}

abbrev weigh : ℕ → ℤ
weigh n = ℤ.pos n

abbrev config : Config ℕ
config = record {
  call_id = "call-1";
  stage = "stt";
  depth_unit = items;
  low_watermark = 2;
  high_watermark = 5;
  hard_limit = 8;
  weight_fn = weigh;
  max_items = 4;
}

abbrev fresh : FlowControlledQueue ℕ
fresh = record {
  config = config;
  corked = false;
  hard_limited = false;
  depth_weight = 0;
  corked_at = none;
  entries = [];
  closed = false;
  cancelled = false;
}

abbrev filled : FlowControlledQueue ℕ
filled = record fresh {
  corked = true;
  depth_weight = 6;
  corked_at = some 7;
  entries = (4, 4) ∷ (2, 2) ∷ [];
}

abbrev schedule : List (Action ℕ)
schedule = put 4 1 ∷ put 2 2 ∷ get 3 ∷ flush (λ n. ltb n 3) 4 ∷ put 1 5 ∷ close ∷ get 6 ∷ []

abbrev large : ℕ → ℕ
large n = n

fresh-IsValid : IsValid fresh
unfolding init
fresh-IsValid = init-IsValid config refl

filled-IsValid : IsValid filled
filled-IsValid = ground arith

schedule-IsValid_example : IsValid (run act (opened fresh) schedule).queue
schedule-IsValid_example = schedule-IsValid (opened fresh) schedule fresh-IsValid

schedule_accounts_example :
    Balanced large (run act (opened fresh) schedule) × IsOrdered (run act (opened fresh) schedule)
schedule_accounts_example = schedule_accounts fresh schedule large refl

observe-eq-trigger_example :
    (observe_locked filled 9).0.corked
    ≡ trigger filled.low_watermark filled.high_watermark filled.corked filled.depth_weight
observe-eq-trigger_example = observe-eq-trigger filled 9 filled-IsValid.stored

fresh_passes : wait_until_uncorked fresh ≡ through tt fresh none
unfolding wait_until_uncorked
fresh_passes = refl

abbrev two_gets : List ℕ
two_gets = 8 ∷ 9 ∷ []

drain_uncorks_example :
    let q = (run act (opened filled) (map get two_gets)).queue in
    (q.entries ≡ []) × (q.corked ≡ false) × (wait_until_uncorked q ≡ through tt q none)
drain_uncorks_example = drain_uncorks (opened filled) two_gets filled-IsValid (omega arith)

abbrev shut : Ledger ℕ
shut = opened (record filled { closed = true })

abbrev is_small : ℕ → Bool
is_small n = ltb n 3

-- The schedule hands out 4, flushes 2, and leaves nothing behind.
schedule_runs :
    ((run act (opened fresh) schedule).delivered ≡ 4 ∷ 1 ∷ [])
    × ((run act (opened fresh) schedule).flushed ≡ 2 ∷ [])
    × ((run act (opened fresh) schedule).queue.corked ≡ false)
unfolding act put_locked get_locked flush_locked observe_locked Queue.close Queue.cancel
    Queue.flush_loop
schedule_runs = (refl, refl, refl)

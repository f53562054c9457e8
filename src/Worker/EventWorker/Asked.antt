-- ===== src/Worker/EventWorker/Asked.antt =====
-- What `handle_batch` of apps/worker/event_worker.py asks for, and what it asks for when a batch comes
-- a second time.
use mathlib.Core.List.{◌++◌ as append}
use voice_mesh.Prelude.{
  ◌≡◌, refl, ap, sym, subst, String, Option, none, some, List, [], ◌∷◌, ◌++◌, snoc, length, map,
  ◌⊎◌, inl, inr, arith,
}
use voice_mesh.Prelude.Results.{ok}
use voice_mesh.Events.Tables.{PipelineEvent, ConsumedEvent, Database}
use voice_mesh.Events.Bill.{Settings}
use voice_mesh.Events.Batch.{ProjectionBatchResult, project_batch, no_result}
use voice_mesh.Events.Batch.Replay.{replay-IsSilent}
use voice_mesh.Worker.EventWorker.{
  WorkerSettings, Command, publish, Failure, World, Handled, escaped, go_on, ask, commands_of,
  handle_result, handle_batch, publish_duplicates, start_billing_finalization, signal_call_ended,
  signal_usage_projection, start_billing_adjustment, finalize_calls, signal_projections,
  adjust_bills,
}

append_snoc : (xs : List Command) (x : Command) (ys : List Command) → snoc xs x ++ ys ≡ xs ++ x ∷ ys
append_snoc [] x ys = refl
append_snoc (y ∷ xs) x ys = ap (◌∷◌ y) (append_snoc xs x ys)

append_nil : (xs : List Command) → xs ++ [] ≡ xs
append_nil [] = refl
append_nil (x ∷ xs) = ap (◌∷◌ x) (append_nil xs)

-- All calls were asked for, if nothing was raised, and else the first of them, up to the one whose
-- failure was raised.
abbrev pub IsPrefix : List Command → Handled → Type 0
IsPrefix commands h =
    (rest : List Command) × (h.asked ++ rest ≡ commands)
    × ((rest ≡ []) ⊎ ((f : Failure) × (h.raised ≡ some f)))

go_on-IsPrefix :
    (asked cs : List Command) (c : Command) (o : Option Failure) (rest : Handled)
    → IsPrefix (snoc asked c ++ cs) rest
    → IsPrefix (snoc asked c ++ cs) (go_on (snoc asked c) o rest)
go_on-IsPrefix asked cs c none rest h = h
go_on-IsPrefix asked cs c (some f) rest h = (cs, refl, inr (f, refl))

ask-IsPrefix : (w : World) (cs asked : List Command) → IsPrefix (asked ++ cs) (ask w cs asked)
unfolding ask
ask-IsPrefix w [] asked = ([], refl, inl refl)
ask-IsPrefix w (c ∷ cs) asked =
    subst (λ all. IsPrefix all (ask w (c ∷ cs) asked)) (append_snoc asked c cs)
      (go_on-IsPrefix asked cs c (escaped c (w (length asked))) (ask w cs (snoc asked c))
        (ask-IsPrefix w cs (snoc asked c)))

-- Only events about duplicates are published.
abbrev pub AllPublish : List Command → Type 0
AllPublish [] = Unit {0}
AllPublish (publish x ∷ cs) = AllPublish cs
AllPublish (_ ∷ cs) = ⊥

append-AllPublish : (xs ys : List Command) → AllPublish (xs ++ ys) → AllPublish xs
append-AllPublish [] ys h = tt
append-AllPublish (publish x ∷ xs) ys h = append-AllPublish xs ys h
append-AllPublish (start_billing_finalization x ∷ xs) ys h = h
append-AllPublish (signal_call_ended c t ∷ xs) ys h = h
append-AllPublish (signal_usage_projection c t ∷ xs) ys h = h
append-AllPublish (start_billing_adjustment x ∷ xs) ys h = h

module _ {N : Type 0} where
  publish_duplicates-AllPublish : (es : List (PipelineEvent N)) → AllPublish (publish_duplicates es)
  unfolding publish_duplicates
  publish_duplicates-AllPublish [] = tt
  publish_duplicates-AllPublish (e ∷ es) = ground (arith, publish_duplicates-AllPublish es)

  silent-AllPublish :
      (w : World) (c : WorkerSettings) (group : String) (es : List (PipelineEvent N))
      → AllPublish (handle_result w c group (ok (record no_result { duplicate_events = es }))).asked
  unfolding commands_of finalize_calls signal_projections adjust_bills
  silent-AllPublish w c group es =
      let (rest, e, _) = ask-IsPrefix w (publish_duplicates es) [] in
      append-AllPublish (ask w (publish_duplicates es) []).asked rest
        (subst AllPublish (sym e) (publish_duplicates-AllPublish es))

  -- Once a batch has been projected, however its handler ended, a second delivery of it changes no table
  -- and asks for nothing but events about duplicates: what the first delivery did not start, a final
  -- bill or an adjustment, the second does not start either.
  pub redelivery-AllPublish :
      (w w' : World) (c : WorkerSettings) (s : Settings N) (group : String)
      (items : List (ConsumedEvent N)) (db : Database N) (r : ProjectionBatchResult N)
      → (project_batch s group items db).0 ≡ ok r
      → let first = handle_batch w c s group items db in
        let second = handle_batch w' c s group items first.1 in
        AllPublish second.0.asked × (second.1 ≡ first.1)
  unfolding handle_batch
  redelivery-AllPublish w w' c s group items db r h =
      let (quiet, same) = replay-IsSilent s group items db r h in
      (
        subst (λ x. AllPublish (handle_result w' c group x).asked) (sym quiet)
            (silent-AllPublish w' c group (map (λ i. i.event) items)),
        same,
      )

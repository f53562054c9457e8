-- ===== src/Events/Billed/Projected.antt =====
-- Every event and every batch keeps the bills added up.
use voice_mesh.Prelude.{
  ℕ, String, ◌≡◌, refl, ap, subst, Bool, true, false, not, Option-cases, inl, inr, none, List, [],
  ◌∷◌, if◌then◌else◌, has_text,
}
use voice_mesh.Prelude.Dict.{lookup}
use voice_mesh.Prelude.Results.{Result, ok, err, bind_inv, ok_inj}
use voice_mesh.Prelude.Traces.{run, run_induction}
use voice_mesh.Events.Offsets.{TopicPartition, raise_offset}
use voice_mesh.Events.Schemas.{is_usage}
use voice_mesh.Events.Tables.{PipelineEvent, ConsumedEvent, Billing, Database}
use voice_mesh.Events.Bill.{Settings, enqueue_billing_event}
use voice_mesh.Events.Manifest.{project_usage_manifest}
use voice_mesh.Events.Usage.{project_usage, required, is_barrier}
use voice_mesh.Events.Projector.{
  CallChange, ignore, start, end, fail, cork, change_of, change_call, project_call, project_metric,
  measure, insert_event, with_key, project_new, project_one, marked, keep_database, open_call,
}
use voice_mesh.Events.Billed.{Billed, measurements-Spares, bill-Billed}
use voice_mesh.Events.Batch.{Progress, note_event, project_items, begun, commit, project_batch}

module _ {N : Type 0} (s : Settings N) where
  -- All bills add up.
  abbrev AllBilled : Database N → Type 0
  AllBilled db = (c : String) → Billed s db c

  either_ok :
      (P : Database N → Type 0) (b : Bool) (x y : Result (Database N)) (db : Database N)
      → (x ≡ ok db → P db)
      → (y ≡ ok db → P db)
      → (if b then x else y) ≡ ok db
      → P db
  either_ok P true x y db h k q = h q
  either_ok P false x y db h k q = k q

  kept_inv :
      (m : Result (Billing N × Database N)) (db : Database N)
      → ((b : Billing N) (d : Database N) → m ≡ ok (b, d) → AllBilled d)
      → keep_database m ≡ ok db
      → AllBilled db
  kept_inv (ok (b, d)) db h q = subst AllBilled (ok_inj q) (h b d refl)
  kept_inv (err e) db h q = cc

  change-AllBilled :
      (c : CallChange) (e : PipelineEvent N) (db db' : Database N)
      → AllBilled db
      → change_call s c e db ≡ ok db'
      → AllBilled db'
  unfolding change_call
  change-AllBilled ignore e db db' h q = subst AllBilled (ok_inj q) h
  change-AllBilled start e db db' h q = subst AllBilled (ok_inj q) h
  change-AllBilled end e db db' h q =
      either_ok AllBilled (open_call (lookup e.call_id db.calls)) _ _ db'
        (kept_inv _ db' (λ b d.
          bill-Billed s e.call_id _ true db _ d b h (record { bills = refl; sums = λ d h. refl })))
        (λ q. subst AllBilled (ok_inj q) h) q
  change-AllBilled fail e db db' h q =
      kept_inv _ db'
        (λ b d.
          bill-Billed s e.call_id none true db _ d b h
            (record { bills = refl; sums = λ d h. refl }))
        q
  change-AllBilled (cork b) e db db' h q = subst AllBilled (ok_inj q) h

  usage-AllBilled :
      (e : PipelineEvent N) (p : TopicPartition) (n : ℕ) (db db' : Database N)
      → AllBilled db
      → project_usage s e p n db ≡ ok db'
      → AllBilled db'
  unfolding project_usage project_usage_manifest enqueue_billing_event
  usage-AllBilled e p n db db' h q =
      either_ok AllBilled (not (is_usage e.event_type)) _ _ db' (λ q. subst AllBilled (ok_inj q) h)
        (λ q.
          either_ok AllBilled (is_barrier e.event_type) _ _ db' (λ q. subst AllBilled (ok_inj q) h)
            (λ q.
              bind_inv AllBilled (required e.payload.provider) _ db'
                (λ provider _. bind_inv AllBilled (required e.payload.model) _ db' λ model _.
                  bind_inv AllBilled _ _ db' λ d k. bind_inv AllBilled _ _ db' λ (b, d') k' r.
                    subst AllBilled (ok_inj r) (
                      bill-Billed s e.call_id none false db d d' b h
                        (measurements-Spares s e provider model e.payload.measurements db d k) k'))
                q)
            q)
        q

  metric-AllBilled :
      (e : PipelineEvent N) (db : Database N) → AllBilled db → AllBilled (project_metric e db)
  unfolding project_metric measure
  metric-AllBilled e db h = elim (Option-cases e.payload.latency_ms) [
    | inl q ↦ rw q h
    | inr (n, q) ↦ rw q h
  ]

  new-AllBilled :
      (item : ConsumedEvent N) (db db' : Database N)
      → AllBilled db
      → project_new s item db ≡ ok db'
      → AllBilled db'
  unfolding project_new project_call insert_event
  new-AllBilled item db db' h q =
      let e = item.event in
      let db₀ = insert_event e (with_key e db) in
      bind_inv AllBilled (project_call s e db₀) _ db'
        (λ d k r.
          usage-AllBilled e item.source item.offset (project_metric e d) db'
            (metric-AllBilled e d (change-AllBilled (change_of e.event_type) e db₀ d h k)) r)
        q

  one-AllBilled :
      (item : ConsumedEvent N) (db db' : Database N) (b : Bool)
      → AllBilled db
      → project_one s item db ≡ ok (b, db')
      → AllBilled db'
  unfolding project_one
  one-AllBilled item db db' b h q =
      split (has_text item.event.idempotency_key db.idempotency_keys) (project_new s item db)
        (λ d. new-AllBilled item db d h) q
    where
      split :
          (c : Bool) (m : Result (Database N))
          → ((d : Database N) → m ≡ ok d → AllBilled d)
          → (if c then ok (false, db) else marked m) ≡ ok (b, db')
          → AllBilled db'
      split true m k q = subst AllBilled (ap (λ (x : Bool × Database N). x.1) (ok_inj q)) h
      split false (ok d) k q =
          subst AllBilled (ap (λ (x : Bool × Database N). x.1) (ok_inj q)) (k d refl)
      split false (err x) k q = cc

  items-AllBilled :
      (items : List (ConsumedEvent N)) (p q : Progress N)
      → AllBilled p.database
      → project_items s items p ≡ ok q
      → AllBilled q.database
  unfolding project_items
  items-AllBilled [] p q h e = subst (λ (r : Progress N). AllBilled r.database) (ok_inj e) h
  items-AllBilled (i ∷ items) p q h e =
      bind_inv (λ (r : Progress N). AllBilled r.database) (project_one s i p.database) _ q
        (λ (b, db) k r.
          items-AllBilled items
            (record {
              watermarks = raise_offset i.source i.offset p.watermarks;
              result = note_event i.event b db p.result;
              database = db;
            })
            q (one-AllBilled i p.database db b h k) r)
        e

  committed-AllBilled :
      (group : String) (db : Database N) (m : Result (Progress N))
      → AllBilled db
      → ((p : Progress N) → m ≡ ok p → AllBilled p.database)
      → AllBilled (commit group db m).1
  committed-AllBilled group db (ok p) h k = k p refl
  committed-AllBilled group db (err e) h k = h

  -- The database after a batch, whether it was committed or rolled back.
  abbrev pub after_batch : String → Database N → List (ConsumedEvent N) → Database N
  after_batch group db items = (project_batch s group items db).1

  batch-AllBilled :
      (group : String) (db : Database N) (items : List (ConsumedEvent N))
      → AllBilled db
      → AllBilled (after_batch group db items)
  unfolding project_batch
  batch-AllBilled group db items h =
      committed-AllBilled group db (project_items s items (begun db)) h
        (λ p k. items-AllBilled items (begun db) p h k)

  -- If all bills add up, then after any batches, committed or rolled back, the bill of every call
  -- does: its provider cost is the sum of the costs of the call's usage records, and its total is the
  -- platform fee plus that cost. A call without a bill has no costs.
  pub batches-Billed :
      (group : String) (db : Database N) (batches : List (List (ConsumedEvent N))) (c : String)
      → ((d : String) → Billed s db d)
      → Billed s (run (after_batch group) db batches) c
  batches-Billed group db batches c h =
      run_induction (after_batch group) AllBilled (batch-AllBilled group) db batches h c

-- ===== src/Events/Kept.antt =====
-- What the projection of an event leaves alone: the idempotency keys and the watermarks.
use voice_mesh.Prelude.{
  ℕ, String, ◌≡◌, refl, ◌∙◌, Option-cases, inl, inr, Bool, true, false, not, Option, none, some,
  List, [], ◌∷◌, arith, if◌then◌else◌,
}
use voice_mesh.Prelude.Dict.{lookup}
use voice_mesh.Prelude.Results.{Result, ok, err, bind_inv}
use voice_mesh.Events.Offsets.{TopicPartition}
use voice_mesh.Events.Tables.{PipelineEvent, ConsumedEvent, Measurement, Billing, Price, Database}
use voice_mesh.Events.Bill.{Settings, update_call_billing, returned_row, enqueue_billing_event}
use voice_mesh.Events.Manifest.{project_usage_manifest}
use voice_mesh.Events.Usage.{
  priced, project_priced, update_usage_rollup, project_measurements, project_usage, required,
  is_barrier,
}
use voice_mesh.Events.Schemas.{is_usage}
use voice_mesh.Events.Projector.{
  CallChange, ignore, start, end, fail, cork, change_of, change_call, project_call, project_metric,
  measure, insert_event, with_key, project_new, keep_database, open_call,
}

pub record Keeps {N : Type 0} (db db' : Database N) : Type 0 where
  pub keys : db'.idempotency_keys ≡ db.idempotency_keys
  pub watermarks : db'.projection_watermarks ≡ db.projection_watermarks
  pub final : db'.final_call_billing_records ≡ db.final_call_billing_records

module _ {N : Type 0} (s : Settings N) where
  returned-Keeps :
      (o : Option (Billing N)) (db db' : Database N) (b : Billing N)
      → returned_row o db ≡ ok (b, db')
      → Keeps db db'
  unfolding returned_row
  returned-Keeps none db db' b q = cc
  returned-Keeps (some x) db db' b q = ground arith

  billing-Keeps :
      (call_id : String) (duration : Option N) (finalized : Bool) (db db' : Database N)
      (b : Billing N)
      → update_call_billing s call_id duration finalized db ≡ ok (b, db')
      → Keeps db db'
  unfolding update_call_billing
  billing-Keeps call_id duration finalized db db' b q =
      let k = returned-Keeps _ _ db' b q in
      record { keys = k.keys; watermarks = k.watermarks; final = k.final }

  refl-Keeps : (db : Database N) → Keeps db db
  refl-Keeps db = record { keys = refl; watermarks = refl; final = refl }

  trans-Keeps : (a b c : Database N) → Keeps a b → Keeps b c → Keeps a c
  trans-Keeps a b c h k = record {
    keys = k.keys ∙ h.keys;
    watermarks = k.watermarks ∙ h.watermarks;
    final = k.final ∙ h.final;
  }

  kept_billing :
      (m : Result (Billing N × Database N)) (db db' : Database N)
      → ((b : Billing N) (d : Database N) → m ≡ ok (b, d) → Keeps db d)
      → keep_database m ≡ ok db'
      → Keeps db db'
  kept_billing (ok (b, d)) db db' h q = ground (arith, h b d refl)
  kept_billing (err e) db db' h q = cc

  either-Keeps :
      (b : Bool) (x y : Result (Database N)) (db db' : Database N)
      → (x ≡ ok db' → Keeps db db')
      → (y ≡ ok db' → Keeps db db')
      → (if b then x else y) ≡ ok db'
      → Keeps db db'
  either-Keeps true x y db db' h k q = h q
  either-Keeps false x y db db' h k q = k q

  change-Keeps :
      (c : CallChange) (e : PipelineEvent N) (db db' : Database N)
      → change_call s c e db ≡ ok db'
      → Keeps db db'
  unfolding change_call
  change-Keeps ignore e db db' q = ground arith
  change-Keeps start e db db' q = ground arith
  change-Keeps end e db db' q =
      either-Keeps (open_call (lookup e.call_id db.calls)) _ _ db db'
        (λ q.
          let k = kept_billing _ _ db' (λ b d. billing-Keeps e.call_id _ true _ d b) q in
          record { keys = k.keys; watermarks = k.watermarks; final = k.final })
        (λ q. ground arith) q
  change-Keeps fail e db db' q =
      let k = kept_billing _ _ db' (λ b d. billing-Keeps e.call_id none true _ d b) q in
      record { keys = k.keys; watermarks = k.watermarks; final = k.final }
  change-Keeps (cork b) e db db' q = ground arith

  priced_usage-Keeps :
      (e : PipelineEvent N) (provider model : String) (m : Measurement N) (p : Price N)
      (db : Database N)
      → Keeps db (project_priced s e provider model m p db)
  unfolding project_priced update_usage_rollup
  priced_usage-Keeps e provider model m p db = ground arith

  priced-Keeps :
      (e : PipelineEvent N) (provider model : String) (m : Measurement N) (o : Option (Price N))
      (db db' : Database N)
      → priced o (λ price. project_priced s e provider model m price db) ≡ ok db'
      → Keeps db db'
  unfolding priced
  priced-Keeps e provider model m none db db' q = cc
  priced-Keeps e provider model m (some p) db db' q =
      ground (arith, priced_usage-Keeps e provider model m p db)

  measurements-Keeps :
      (e : PipelineEvent N) (provider model : String) (ms : List (Measurement N))
      (db db' : Database N)
      → project_measurements s e provider model ms db ≡ ok db'
      → Keeps db db'
  unfolding project_measurements
  measurements-Keeps e provider model [] db db' q = ground arith
  measurements-Keeps e provider model (m ∷ ms) db db' q =
      bind_inv (Keeps db) _ _ db'
        (λ d h k.
          trans-Keeps db d db'
            (priced-Keeps e provider model m (db.pricing_catalog provider model m.usage_type) db d
              h)
            (measurements-Keeps e provider model ms d db' k))
        q

  usage-Keeps :
      (e : PipelineEvent N) (p : TopicPartition) (n : ℕ) (db db' : Database N)
      → project_usage s e p n db ≡ ok db'
      → Keeps db db'
  unfolding project_usage project_usage_manifest enqueue_billing_event
  usage-Keeps e p n db db' q =
      either-Keeps (not (is_usage e.event_type)) _ _ db db' (λ q. ground arith)
        (λ q.
          either-Keeps (is_barrier e.event_type) _ _ db db' (λ q. ground arith)
            (λ q.
              bind_inv (Keeps db) (required e.payload.provider) _ db'
                (λ provider _. bind_inv (Keeps db) (required e.payload.model) _ db' λ model _.
                  bind_inv (Keeps db) _ _ db' λ d h. bind_inv (Keeps db) _ _ db' λ (b, d') h' k.
                    trans-Keeps db d db'
                      (measurements-Keeps e provider model e.payload.measurements db d h)
                      (let r = billing-Keeps e.call_id none false d d' b h' in ground (arith, r)))
                q)
            q)
        q

  metric-Keeps : (e : PipelineEvent N) (db : Database N) → Keeps db (project_metric e db)
  unfolding project_metric measure
  metric-Keeps e db = elim (Option-cases e.payload.latency_ms) [
    | inl q ↦ rw q (refl-Keeps db)
    | inr (n, q) ↦ rw q (record { keys = refl; watermarks = refl; final = refl })
  ]

  -- A new event that is projected adds its key, and leaves the watermarks as they are.
  pub project_new-Keeps :
      (item : ConsumedEvent N) (db db' : Database N)
      → project_new s item db ≡ ok db'
      → Keeps (with_key item.event db) db'
  unfolding project_new project_call insert_event
  project_new-Keeps item db db' q =
      let e = item.event in
      bind_inv (Keeps (with_key e db)) (project_call s e (insert_event e (with_key e db))) _ db'
        (λ d h k.
          let c = change-Keeps (change_of e.event_type) e (insert_event e (with_key e db)) d h in
          let start : Keeps (with_key e db) d = record {
            keys = c.keys;
            watermarks = c.watermarks;
            final = c.final;
          } in
          trans-Keeps (with_key e db) d db' start (
            trans-Keeps d (project_metric e d) db' (metric-Keeps e d)
              (usage-Keeps e item.source item.offset (project_metric e d) db' k)))
        q

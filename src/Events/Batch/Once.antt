-- ===== src/Events/Batch/Once.antt =====
-- A batch takes in each idempotency key once.
use voice_mesh.Prelude.{
  bit, bit_small, ℕ, ◌+◌, ◌≤◌, String, ◌≡◌, refl, ap, sym, subst, Bool, true, false, ◌||◌, List, [],
  ◌∷◌, arith, if◌then◌else◌, has_text, snoc, str_eq, length, length-append, eq_iff,
}
use voice_mesh.Prelude.Results.{Result, ok, err, bind_inv, ok_inj}
use voice_mesh.Events.Offsets.{raise_offset}
use voice_mesh.Events.Tables.{PipelineEvent, ConsumedEvent, Database}
use voice_mesh.Events.Bill.{Settings}
use voice_mesh.Events.Projector.{project_one, project_new, with_key, marked}
use voice_mesh.Events.Kept.{Keeps, project_new-Keeps}
use voice_mesh.Events.Batch.{
  ProjectionBatchResult, Progress, note_event, note_usage, project_items, begun, commit,
  project_batch,
}

module _ {N : Type 0} where
  -- How many of the events have the key.
  abbrev pub count_key : String → List (PipelineEvent N) → ℕ
  count_key k [] = 0
  count_key k (e ∷ es) = bit (str_eq k e.idempotency_key) + count_key k es

  count_key-snoc :
      (k : String) (es : List (PipelineEvent N)) (e : PipelineEvent N)
      → count_key k (snoc es e) ≡ count_key k es + bit (str_eq k e.idempotency_key)
  count_key-snoc k [] e = omega arith
  count_key-snoc k (x ∷ es) e = omega (arith, count_key-snoc k es e)

  note_inserted :
      (e : PipelineEvent N) (b : Bool) (db : Database N) (r : ProjectionBatchResult N)
      → ((note_event e b db r).inserted_events
          ≡ (if b then snoc r.inserted_events e else r.inserted_events))
        × ((note_event e b db r).duplicate_events
            ≡ (if b then r.duplicate_events else snoc r.duplicate_events e))
  unfolding note_event note_usage
  note_inserted e true db r = ground arith
  note_inserted e false db r = (refl, refl)

  -- The keys in the store after an event, by whether it was new.
  record Notes (e : PipelineEvent N) (b : Bool) (keys keys' : List String) : Type 0 where
    was : has_text e.idempotency_key keys ≡ (if b then false else true)
    now : keys' ≡ (if b then e.idempotency_key ∷ keys else keys)

module _ {N : Type 0} (s : Settings N) where
  one-Notes :
      (i : ConsumedEvent N) (db db' : Database N) (b : Bool)
      → project_one s i db ≡ ok (b, db')
      → Notes i.event b db.idempotency_keys db'.idempotency_keys
  unfolding project_one
  one-Notes i db db' b q =
      split (has_text i.event.idempotency_key db.idempotency_keys) (project_new s i db) refl
        (project_new-Keeps s i db) q
    where
      split :
          (c : Bool) (m : Result (Database N))
          → has_text i.event.idempotency_key db.idempotency_keys ≡ c
          → ((d : Database N) → m ≡ ok d → Keeps (with_key i.event db) d)
          → (if c then ok (false, db) else marked m) ≡ ok (b, db')
          → Notes i.event b db.idempotency_keys db'.idempotency_keys
      split true m e h q =
          subst
            (λ (x : Bool × Database N). Notes i.event x.0 db.idempotency_keys x.1.idempotency_keys)
            (ok_inj q) (record { was = e; now = refl })
      split false (ok d) e h q =
          subst
            (λ (x : Bool × Database N). Notes i.event x.0 db.idempotency_keys x.1.idempotency_keys)
            (ok_inj q) (record { was = e; now = (h d refl).keys })
      split false (err x) e h q = cc

  -- The events with the key `k` that were taken in, and the one from before, are at most one.
  abbrev IsOnce : String → ℕ → Progress N → Type 0
  IsOnce k before p =
      count_key k p.result.inserted_events + before ≤ bit (has_text k p.database.idempotency_keys)

  abbrev handled_count : Progress N → ℕ
  handled_count p = length p.result.inserted_events + length p.result.duplicate_events

  step_once :
      (k : String) (before : ℕ) (e : PipelineEvent N) (b : Bool) (db : Database N) (p : Progress N)
      → Notes e b p.database.idempotency_keys db.idempotency_keys
      → IsOnce k before p
      → count_key k (note_event e b db p.result).inserted_events + before
        ≤ bit (has_text k db.idempotency_keys)
  step_once k before e true db p n h =
      subst
        (λ ks.
          count_key k (note_event e true db p.result).inserted_events + before
          ≤ bit (has_text k ks))
        (sym n.now)
        (subst
          (λ es.
            count_key k es + before
            ≤ bit (has_text k (e.idempotency_key ∷ p.database.idempotency_keys)))
          (sym (note_inserted e true db p.result).0) (taken (str_eq k e.idempotency_key) refl))
    where
      taken :
          (c : Bool)
          → str_eq k e.idempotency_key ≡ c
          → count_key k (snoc p.result.inserted_events e) + before
            ≤ bit (c || has_text k p.database.idempotency_keys)
      taken true q =
          let same = (eq_iff k e.idempotency_key).0 q in
          let fresh =
            subst (λ x. has_text x p.database.idempotency_keys ≡ false) (sym same) n.was in
          omega (arith, count_key-snoc k p.result.inserted_events e, ap bit q, h, ap bit fresh)
      taken false q = omega (arith, count_key-snoc k p.result.inserted_events e, ap bit q, h)
  step_once k before e false db p n h =
      subst
        (λ ks.
          count_key k (note_event e false db p.result).inserted_events + before
          ≤ bit (has_text k ks))
        (sym n.now)
        (subst (λ es. count_key k es + before ≤ bit (has_text k p.database.idempotency_keys))
          (sym (note_inserted e false db p.result).0) h)

  step_count :
      (e : PipelineEvent N) (b : Bool) (db : Database N) (r : ProjectionBatchResult N)
      → length (note_event e b db r).inserted_events + length (note_event e b db r).duplicate_events
        ≡ length r.inserted_events + length r.duplicate_events + 1
  step_count e true db r =
      let (i, d) = note_inserted e true db r in
      omega (arith, ap length i, ap length d, length-append r.inserted_events (e ∷ []))
  step_count e false db r =
      let (i, d) = note_inserted e false db r in
      omega (arith, ap length i, ap length d, length-append r.duplicate_events (e ∷ []))

  items-IsOnce :
      (k : String) (before : ℕ) (items : List (ConsumedEvent N)) (p q : Progress N)
      → IsOnce k before p
      → project_items s items p ≡ ok q
      → IsOnce k before q × (handled_count q ≡ handled_count p + length items)
  unfolding project_items
  items-IsOnce k before [] p q h e =
      subst (λ q. IsOnce k before q × (handled_count q ≡ handled_count p + 0)) (ok_inj e)
        (h, omega arith)
  items-IsOnce k before (i ∷ items) p q h e =
      bind_inv (λ q. IsOnce k before q × (handled_count q ≡ handled_count p + length (i ∷ items)))
        (project_one s i p.database) _ q
        (λ (b, db) n r.
          let next : Progress N = record {
            watermarks = raise_offset i.source i.offset p.watermarks;
            result = note_event i.event b db p.result;
            database = db;
          } in
          let (once, count) =
            items-IsOnce k before items next q
              (step_once k before i.event b db p (one-Notes i p.database db b n) h) r in
          (once, omega (arith, count, step_count i.event b db p.result)))
        e

  committed_once :
      (k group : String) (items : List (ConsumedEvent N)) (db : Database N)
      (m : Result (Progress N)) (r : ProjectionBatchResult N)
      → project_items s items (begun db) ≡ m
      → (commit group db m).0 ≡ ok r
      → (count_key k r.inserted_events + bit (has_text k db.idempotency_keys) ≤ 1)
        × (length r.inserted_events + length r.duplicate_events ≡ length items)
  committed_once k group items db (ok p) r e q =
      let (once, count) =
        items-IsOnce k (bit (has_text k db.idempotency_keys)) items (begun db) p (omega arith) e in
      subst
        (λ (r : ProjectionBatchResult N).
          (count_key k r.inserted_events + bit (has_text k db.idempotency_keys) ≤ 1)
          × (length r.inserted_events + length r.duplicate_events ≡ length items))
        (ok_inj q)
        (
          omega (arith, once, bit_small (has_text k p.database.idempotency_keys)),
          omega (arith, count),
        )
  committed_once k group items db (err x) r e q = cc

  -- A batch that commits sorts its events into new ones and duplicates. No idempotency key occurs
  -- twice among the new ones, and none that was recorded before the batch occurs there at all.
  pub batch_once :
      (k group : String) (items : List (ConsumedEvent N)) (db : Database N)
      (r : ProjectionBatchResult N)
      → (project_batch s group items db).0 ≡ ok r
      → (count_key k r.inserted_events + bit (has_text k db.idempotency_keys) ≤ 1)
        × (length r.inserted_events + length r.duplicate_events ≡ length items)
  unfolding project_batch
  batch_once k group items db r q =
      committed_once k group items db (project_items s items (begun db)) r refl q

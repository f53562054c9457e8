-- ===== src/Events/Batch/Replay.antt =====
-- A batch that Kafka delivers again changes nothing.
use mathlib.Core.List.{append-nil, append_assoc}
use voice_mesh.Prelude.{
  ℕ, String, ◌≡◌, refl, ◌∙◌, ap, sym, subst, Bool, true, false, List, [], ◌∷◌, ◌++◌, map, arith,
  if◌then◌else◌, has_text, snoc, str_eq_refl,
}
use voice_mesh.Prelude.Dict.{Dict}
use voice_mesh.Prelude.Results.{Result, ok, err, bind_inv, ok_inj}
use voice_mesh.Events.Offsets.{
  TopicPartition, Offsets, offset_at, raise_offset, Reaches, Reaches-raise_offset, Reaches-kept,
}
use voice_mesh.Events.Tables.{ConsumedEvent, Database}
use voice_mesh.Events.Bill.{Settings}
use voice_mesh.Events.Projector.{project_one, project_new, with_key, marked}
use voice_mesh.Events.Kept.{Keeps, project_new-Keeps}
use voice_mesh.Events.Batch.{
  ProjectionBatchResult, Progress, note_event, project_items, begun, saved, commit, project_batch,
  save_watermarks, no_result,
}
use voice_mesh.Events.Batch.Watermarks.{
  IsReached, AllReached, save_reached, raise-AllReached, save-IsReached,
}

abbrev pub Knows : List String → String → Type 0
Knows keys k = has_text k keys ≡ true

module _ {N : Type 0} where
  -- The keys of all the items are in the database.
  abbrev pub AllKnown : List String → List (ConsumedEvent N) → Type 0
  AllKnown keys [] = Unit
  AllKnown keys (i ∷ is) = Knows keys i.event.idempotency_key × AllKnown keys is

  -- The watermarks reach the offsets of all the items.
  abbrev pub AllSeen : Offsets → List (ConsumedEvent N) → Type 0
  AllSeen w [] = Unit
  AllSeen w (i ∷ is) = Reaches i.offset (offset_at i.source w) × AllSeen w is

  -- The loop over items whose keys are all known: duplicates, and watermarks.
  abbrev replayed : List (ConsumedEvent N) → Progress N → Progress N
  replayed [] p = p
  replayed (i ∷ is) p = replayed is (record p {
    watermarks = raise_offset i.source i.offset p.watermarks;
    result = record p.result { duplicate_events = snoc p.result.duplicate_events i.event };
  })

  replayed-database :
      (is : List (ConsumedEvent N)) (p : Progress N) → (replayed is p).database ≡ p.database
  replayed-database [] p = refl
  replayed-database (i ∷ is) p = replayed-database is (record p {
    watermarks = raise_offset i.source i.offset p.watermarks;
    result = record p.result { duplicate_events = snoc p.result.duplicate_events i.event };
  })

  replayed-result :
      (is : List (ConsumedEvent N)) (p : Progress N)
      → (replayed is p).result
        ≡ record p.result { duplicate_events = p.result.duplicate_events ++ map (λ i. i.event) is }
  replayed-result [] p = rw (append-nil p.result.duplicate_events) refl
  replayed-result (i ∷ is) p =
      let next : Progress N = record p {
        watermarks = raise_offset i.source i.offset p.watermarks;
        result = record p.result { duplicate_events = snoc p.result.duplicate_events i.event };
      } in
      replayed-result is next
      ∙ ap (λ es. record p.result { duplicate_events = es })
          (append_assoc p.result.duplicate_events (i.event ∷ []) (map (λ i. i.event) is))

  -- The group's watermarks reach the offsets of all the items.
  abbrev AllAt : String → Dict Offsets → List (ConsumedEvent N) → Type 0
  AllAt g t [] = Unit
  AllAt g t (i ∷ is) = IsReached g t i.source i.offset × AllAt g t is

  AllAt-save :
      (g : String) (w : Offsets) (t : Dict Offsets) (is : List (ConsumedEvent N))
      → AllSeen w is
      → AllAt g (save_watermarks g w t) is
  AllAt-save g w t [] h = tt
  AllAt-save g w t (i ∷ is) h =
      (save-IsReached g w i.source i.offset t h.0, AllAt-save g w t is h.1)

  replayed-AllReached :
      (g : String) (t : Dict Offsets) (is : List (ConsumedEvent N)) (p : Progress N)
      → AllAt g t is
      → AllReached g t p.watermarks
      → AllReached g t (replayed is p).watermarks
  replayed-AllReached g t [] p h k = k
  replayed-AllReached g t (i ∷ is) p h k =
      replayed-AllReached g t is
        (record p {
          watermarks = raise_offset i.source i.offset p.watermarks;
          result = record p.result { duplicate_events = snoc p.result.duplicate_events i.event };
        })
        h.1 (raise-AllReached g i.source i.offset p.watermarks t h.0 k)

module _ {N : Type 0} (s : Settings N) where
  one_known :
      (i : ConsumedEvent N) (db : Database N)
      → Knows db.idempotency_keys i.event.idempotency_key
      → project_one s i db ≡ ok (false, db)
  unfolding project_one
  one_known i db h = rw h

  items_known :
      (is : List (ConsumedEvent N)) (p : Progress N)
      → AllKnown p.database.idempotency_keys is
      → project_items s is p ≡ ok (replayed is p)
  unfolding project_items note_event
  items_known [] p h = refl
  items_known (i ∷ is) p h =
      let next : Progress N = record p {
        watermarks = raise_offset i.source i.offset p.watermarks;
        result = record p.result { duplicate_events = snoc p.result.duplicate_events i.event };
      } in
      rw (one_known i p.database h.0) (items_known is next h.1)

  -- What an event leaves behind once it is projected.
  record Recorded (i : ConsumedEvent N) (db db' : Database N) : Type 0 where
    known : Knows db'.idempotency_keys i.event.idempotency_key
    kept : (k : String) → Knows db.idempotency_keys k → Knows db'.idempotency_keys k
    same : db'.projection_watermarks ≡ db.projection_watermarks

  Keeps-Recorded :
      (i : ConsumedEvent N) (db db' : Database N)
      → Keeps (with_key i.event db) db'
      → Recorded i db db'
  Keeps-Recorded i db db' k = record {
    known =
        subst (λ ks. has_text i.event.idempotency_key ks ≡ true) (sym k.keys)
          (rw (str_eq_refl i.event.idempotency_key) refl);
    kept = λ x h. subst (λ ks. has_text x ks ≡ true) (sym k.keys) (ground (arith, h));
    same = k.watermarks;
  }

  -- Whether an event was new or not, its key is recorded.
  one-Recorded :
      (i : ConsumedEvent N) (db db' : Database N) (b : Bool)
      → project_one s i db ≡ ok (b, db')
      → Recorded i db db'
  unfolding project_one
  one-Recorded i db db' b q =
      recorded (has_text i.event.idempotency_key db.idempotency_keys) (project_new s i db) refl
        (project_new-Keeps s i db) q
    where
      recorded :
          (c : Bool) (m : Result (Database N))
          → has_text i.event.idempotency_key db.idempotency_keys ≡ c
          → ((d : Database N) → m ≡ ok d → Keeps (with_key i.event db) d)
          → (if c then ok (false, db) else marked m) ≡ ok (b, db')
          → Recorded i db db'
      recorded true m e h q =
          subst (Recorded i db) (ap (λ (x : Bool × Database N). x.1) (ok_inj q))
            (record { known = e; kept = λ x k. k; same = refl })
      recorded false (ok d) e h q =
          subst (Recorded i db) (ap (λ (x : Bool × Database N). x.1) (ok_inj q))
            (Keeps-Recorded i db d (h d refl))
      recorded false (err x) e h q = cc

  -- What a loop over items leaves behind.
  record Done (is : List (ConsumedEvent N)) (p q : Progress N) : Type 0 where
    all_known : AllKnown q.database.idempotency_keys is
    keys_kept :
        (k : String) → Knows p.database.idempotency_keys k → Knows q.database.idempotency_keys k
    table_same : q.database.projection_watermarks ≡ p.database.projection_watermarks
    all_seen : AllSeen q.watermarks is
    seen_kept :
        (t : TopicPartition) (n : ℕ)
        → Reaches n (offset_at t p.watermarks)
        → Reaches n (offset_at t q.watermarks)

  items-Done :
      (is : List (ConsumedEvent N)) (p q : Progress N) → project_items s is p ≡ ok q → Done is p q
  unfolding project_items
  items-Done [] p q e = subst (Done [] p) (ok_inj e) (record {
    all_known = tt;
    keys_kept = λ k h. h;
    table_same = refl;
    all_seen = tt;
    seen_kept = λ t n h. h;
  })
  items-Done (i ∷ is) p q e =
      bind_inv (λ q. Done (i ∷ is) p q) (project_one s i p.database) _ q
        (λ (b, db) h k.
          let r = one-Recorded i p.database db b h in
          let next : Progress N = record {
            watermarks = raise_offset i.source i.offset p.watermarks;
            result = note_event i.event b db p.result;
            database = db;
          } in
          let d = items-Done is next q k in
          record {
            all_known = (d.keys_kept i.event.idempotency_key r.known, d.all_known);
            keys_kept = λ x y. d.keys_kept x (r.kept x y);
            table_same = d.table_same ∙ r.same;
            all_seen = (
              d.seen_kept i.source i.offset (Reaches-raise_offset i.source i.offset p.watermarks),
              d.all_seen,
            );
            seen_kept =
                λ t n y. d.seen_kept t n (Reaches-kept i.source t n i.offset p.watermarks y);
          })
        e

  -- What a batch without any effect comes to: duplicates only, and the database as it was.
  abbrev pub IsSilent : String → List (ConsumedEvent N) → Database N → Type 0
  IsSilent g is db =
      (project_batch s g is db).0
        ≡ ok (record no_result { duplicate_events = map (λ i. i.event) is })
      × ((project_batch s g is db).1 ≡ db)

  known-IsSilent :
      (g : String) (is : List (ConsumedEvent N)) (db : Database N)
      → AllKnown db.idempotency_keys is
      → AllAt g db.projection_watermarks is
      → IsSilent g is db
  unfolding project_batch
  known-IsSilent g is db h k =
      let p = replayed is (begun db) in
      let same : p.database ≡ db = replayed-database is (begun db) in
      let table : save_watermarks g p.watermarks db.projection_watermarks
          ≡ db.projection_watermarks =
        save_reached g p.watermarks db.projection_watermarks
          (replayed-AllReached g db.projection_watermarks is (begun db) k tt) in
      rw (items_known is (begun db) h) (
        ap ok (replayed-result is (begun db)),
        ap
              (λ (d : Database N). record d {
                projection_watermarks = save_watermarks g p.watermarks d.projection_watermarks;
              })
              same
            ∙ ap (λ t. record db { projection_watermarks = t }) table,
      )

  replayed_commit :
      (g : String) (is : List (ConsumedEvent N)) (db : Database N) (m : Result (Progress N))
      (r : ProjectionBatchResult N)
      → project_items s is (begun db) ≡ m
      → (commit g db m).0 ≡ ok r
      → IsSilent g is (commit g db m).1
  replayed_commit g is db (ok p) r e q =
      let d = items-Done is (begun db) p e in
      known-IsSilent g is (saved g p) d.all_known
        (AllAt-save g p.watermarks p.database.projection_watermarks is d.all_seen)
  replayed_commit g is db (err x) r e q = cc

  -- When a batch has been projected, projecting it once more finds duplicates only, and leaves the
  -- database, its watermarks included, exactly as it is.
  pub replay-IsSilent :
      (g : String) (is : List (ConsumedEvent N)) (db : Database N) (r : ProjectionBatchResult N)
      → (project_batch s g is db).0 ≡ ok r
      → IsSilent g is (project_batch s g is db).1
  unfolding project_batch
  replay-IsSilent g is db r q = replayed_commit g is db (project_items s is (begun db)) r refl q

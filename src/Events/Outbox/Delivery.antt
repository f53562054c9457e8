-- ===== src/Events/Outbox/Delivery.antt =====
-- What apps/api/db/outbox.py says of a row, and what the broker has acknowledged.
use voice_mesh.Prelude.{
  ℕ, ◌≡◌, ◌⊎◌, inl, inr, refl, String, Bool, true, false, Option, none, some, List, [], ◌∷◌, arith,
  subst, str_eq, eq_iff, snoc, Bool-cases, take,
}
use voice_mesh.Prelude.Dict.{
  Dict, lookup, lookup-update_row, lookup-insert_new, update_found, found_or,
}
use voice_mesh.Prelude.Distinct.{IsDistinct, insert_new-IsDistinct}
use voice_mesh.Prelude.Traces.{run, run_induction}
use voice_mesh.Events.Outbox.{
  OutboxRow, Message, Outbox, Outcome, done, failed, World, set_published, set_error, pending,
  message_of, noted, marked, log, sent_on, read_on, publish_row, publish_rows, publish_batch,
  Happening, inserted, polled, new_row, happen,
}
use voice_mesh.Events.Outbox.Others.{others-AllFound, publish_rows-IsDistinct}
use voice_mesh.Events.Outbox.Order.{AllFound, batch-IsFetched}

module _ {P : Type 0} where
  -- The ledger names a message of a row.
  abbrev pub IsSent : String → Message P → List (String × Message P) → Type 0
  IsSent k m [] = ⊥
  IsSent k m (x ∷ xs) = (x ≡ (k, m)) ⊎ IsSent k m xs

  IsSent-snoc :
      (k : String) (m : Message P) (x : String × Message P) (xs : List (String × Message P))
      → IsSent k m xs
      → IsSent k m (snoc xs x)
  IsSent-snoc k m x [] h = elim h [ ]
  IsSent-snoc k m x (y ∷ ys) (inl e) = inl e
  IsSent-snoc k m x (y ∷ ys) (inr h) = inr (IsSent-snoc k m x ys h)

  last-IsSent :
      (k : String) (m : Message P) (xs : List (String × Message P)) → IsSent k m (snoc xs (k, m))
  last-IsSent k m [] = inl refl
  last-IsSent k m (y ∷ ys) = inr (last-IsSent k m ys)

module _ {P : Type 0} (loads : String → Outcome P) (k : String) where
  -- The broker has acknowledged a row's message.
  abbrev pub IsBacked : OutboxRow → List (String × Message P) → Type 0
  IsBacked r sent = (p : P) × (loads r.payload ≡ done p) × IsSent k (message_of loads r p) sent

  abbrev OnlyIf : Bool → Type 0 → Type 0
  OnlyIf true T = T
  OnlyIf false T = Unit {0}

  abbrev Settles : Option OutboxRow → List (String × Message P) → Type 0
  Settles none sent = Unit {0}
  Settles (some r) sent = OnlyIf r.published (IsBacked r sent)

  -- Row k is backed, if it is there and published.
  abbrev Settled : Outbox P → Type 0
  Settled o = Settles (lookup k o.rows) o.sent

  snoc-OnlyIf :
      (b : Bool) (r : OutboxRow) (sent : List (String × Message P)) (x : String × Message P)
      → OnlyIf b (IsBacked r sent)
      → OnlyIf b (IsBacked r (snoc sent x))
  snoc-OnlyIf true r sent x (p, e, h) = (p, e, IsSent-snoc k (message_of loads r p) x sent h)
  snoc-OnlyIf false r sent x h = tt

  snoc-Settles :
      (ro : Option OutboxRow) (sent : List (String × Message P)) (x : String × Message P)
      → Settles ro sent
      → Settles ro (snoc sent x)
  snoc-Settles none sent x h = tt
  snoc-Settles (some r) sent x h = snoc-OnlyIf r.published r sent x h

  error-Settles :
      (e : String) (ro : Option OutboxRow) (sent : List (String × Message P))
      → Settles ro sent
      → Settles (update_found (set_error e) ro) sent
  error-Settles e none sent h = tt
  error-Settles e (some r) sent h = h

  noted-Settled :
      (id e : String) (o : Outbox P) (answer : Option String)
      → Settled o
      → Settled (noted loads id e o answer).outbox
  noted-Settled id e o none h = ground (
    arith,
    h,
    lookup-update_row id k (set_error e) o.rows,
    error-Settles e (lookup k o.rows) o.sent h,
  )
  noted-Settled id e o (some raised) h = h

  -- What `publish_raw` has done for row `id` before its UPDATE.
  abbrev Acknowledged : String → Outbox P → Type 0
  Acknowledged id o =
      (r : OutboxRow) × (p : P) × (lookup id o.rows ≡ some r)
      × (loads r.payload ≡ done p)
      × IsSent id (message_of loads r p) o.sent

  published-Settles :
      (id : String) (o : Outbox P)
      → id ≡ k
      → Acknowledged id o
      → Settles (update_found set_published (lookup k o.rows)) o.sent
  published-Settles id o e (r, p, found, read, sent) =
      subst (λ j. Settles (update_found set_published (lookup j o.rows)) o.sent) e
        (rw found (p, read, subst (λ j. IsSent j (message_of loads r p) o.sent) e sent))

  marked-Settled :
      (w : World) (id : String) (o : Outbox P) (answer : Option String)
      → Acknowledged id o
      → Settled o
      → Settled (marked loads w id o answer).outbox
  marked-Settled w id o none a h = elim (Bool-cases (str_eq id k)) [
    | inl e ↦
        rw (lookup-update_row id k set_published o.rows, e)
          (published-Settles id o ((eq_iff id k).0 e) a)
    | inr e ↦ rw (lookup-update_row id k set_published o.rows, e) h
  ]
  marked-Settled w id o (some e) a h = noted-Settled id e o (w.note id) h

  sent_on-Settled :
      (w : World) (id : String) (r : OutboxRow) (p : P) (o : Outbox P) (answer : Option String)
      → lookup id o.rows ≡ some r
      → loads r.payload ≡ done p
      → Settled o
      → Settled (sent_on loads w id (message_of loads r p) o answer).outbox
  sent_on-Settled w id r p o none found read h =
      let m = message_of loads r p in
      marked-Settled w id (log loads id m o) (w.mark id)
        (r, p, found, read, last-IsSent id m o.sent)
        (snoc-Settles (lookup k o.rows) o.sent (id, m) h)
  sent_on-Settled w id r p o (some e) found read h = noted-Settled id e o (w.note id) h

  read_on-Settled :
      (w : World) (id : String) (r : OutboxRow) (o : Outbox P) (read : Outcome P)
      → loads r.payload ≡ read
      → lookup id o.rows ≡ some r
      → Settled o
      → Settled (read_on loads w id r o read).outbox
  read_on-Settled w id r o (done p) read found h =
      sent_on-Settled w id r p o (w.publish_raw id) found read h
  read_on-Settled w id r o (failed e) read found h = noted-Settled id e o (w.note id) h

  publish_row-Settled :
      (w : World) (id : String) (r : OutboxRow) (o : Outbox P)
      → lookup id o.rows ≡ some r
      → Settled o
      → Settled (publish_row loads w id r o).outbox
  unfolding publish_row
  publish_row-Settled w id r o found h = read_on-Settled w id r o (loads r.payload) refl found h

  publish_rows-Settled :
      (w : World) (xs : Dict OutboxRow) (o : Outbox P)
      → IsDistinct xs
      → AllFound xs o.rows
      → Settled o
      → Settled (publish_rows loads w xs o).outbox
  unfolding publish_rows
  publish_rows-Settled w [] o d a h = h
  publish_rows-Settled w ((id, r) ∷ xs) o d a h =
      let next = (publish_row loads w id r o).outbox in
      let here = publish_row-Settled w id r o a.0 h in
      let rest =
        publish_rows-Settled w xs next d.1 (others-AllFound loads w id r o xs d.0 a.1) here in
      ground (arith, here, rest)

  -- Keys are distinct, and row k is settled.
  record IsKept (o : Outbox P) : Type 0 where
    distinct : IsDistinct o.rows
    settled : Settled o

  found_or-Settles :
      (topic key payload : String) (now : ℕ) (ro : Option OutboxRow)
      (sent : List (String × Message P))
      → Settles ro sent
      → Settles (found_or (new_row loads topic key payload now) ro) sent
  found_or-Settles topic key payload now none sent h = tt
  found_or-Settles topic key payload now (some r) sent h = h

  happen-IsKept : (o : Outbox P) (e : Happening loads) → IsKept o → IsKept (happen loads o e)
  unfolding happen publish_batch
  happen-IsKept o (inserted id topic key payload now) h = record {
    distinct = insert_new-IsDistinct id (new_row loads topic key payload now) o.rows h.distinct;
    settled = ground (
      arith,
      h.settled,
      lookup-insert_new id k (new_row loads topic key payload now) o.rows,
      found_or-Settles topic key payload now (lookup k o.rows) o.sent h.settled,
    );
  }
  happen-IsKept o (polled limit w) h =
      let xs = take limit (pending w.is_locked o.rows) in
      let f = batch-IsFetched limit w.is_locked o.rows h.distinct in
      record {
        distinct = publish_rows-IsDistinct loads w xs o h.distinct;
        settled = publish_rows-Settled w xs o f.distinct f.found h.settled;
      }

  settled-IsBacked :
      (ro : Option OutboxRow) (r : OutboxRow) (sent : List (String × Message P))
      → Settles ro sent
      → ro ≡ some r
      → r.published ≡ true
      → IsBacked r sent
  settled-IsBacked ro r sent h e p =
      subst (λ b. OnlyIf b (IsBacked r sent)) p (subst (λ x. Settles x sent) e h)

  -- However insertions and batches follow each other, with whatever locks and failures: if a row is
  -- marked as published, then the broker has acknowledged its message, on its topic and with its key.
  pub run-IsBacked :
      (steps : List (Happening loads)) (r : OutboxRow)
      → let o = run (happen loads) (record { rows = []; sent = [] }) steps in
        lookup k o.rows ≡ some r → r.published ≡ true → IsBacked r o.sent
  unfolding lookup
  run-IsBacked steps r found p =
      let start : Outbox P = record { rows = []; sent = [] } in
      let o = run (happen loads) start steps in
      let kept =
        run_induction (happen loads) IsKept happen-IsKept start steps
          (record { distinct = tt; settled = tt }) in
      settled-IsBacked (lookup k o.rows) r o.sent kept.settled found p

-- ===== src/Events/Outbox/Drained.antt =====
-- Batches of apps/api/db/outbox.py for which nothing fails and no row is locked.
use voice_mesh.Prelude.{
  ℕ, zero, suc, ◌+◌, ◌-◌, ◌*◌, ◌≡◌, refl, String, false, some, none, List, [], ◌∷◌, ◌++◌, arith,
  length, take, min, ap, sym, ◌∙◌,
}
use voice_mesh.Prelude.Dict.{Dict, lookup, update_row}
use voice_mesh.Prelude.Distinct.{IsDistinct}
use voice_mesh.Prelude.Traces.{run}
use voice_mesh.Events.Outbox.{
  OutboxRow, Message, Outbox, Outcome, done, World, Progress, set_published, message_of, pending,
  publish_row, publish_rows, publish_batch, Happening, polled, happen,
}
use voice_mesh.Events.Outbox.Others.{others-AllFound, publish_rows-IsDistinct}
use voice_mesh.Events.Outbox.Order.{waiting, AllFound, AllOpen, batch-IsFetched, length-batch}

abbrev pub accepting : World
accepting = record {
  is_locked = λ _. false;
  publish_raw = λ _. none;
  mark = λ _. none;
  note = λ _. none;
}

waiting-published :
    (id : String) (r : OutboxRow) (rows : Dict OutboxRow)
    → lookup id rows ≡ some r
    → r.published ≡ false
    → suc (waiting (update_row id set_published rows)) ≡ waiting rows
unfolding lookup update_row
waiting-published id r [] h p = cc
waiting-published id r ((j, s) ∷ rows) h p = ground (arith, h, p, waiting-published id r rows)

module _ {P : Type 0} (reads : String → P) where
  abbrev read : String → Outcome P
  read text = done (reads text)

  -- The messages of fetched rows.
  abbrev pub messages : Dict OutboxRow → List (String × Message P)
  messages [] = []
  messages ((k, r) ∷ xs) = (k, message_of read r (reads r.payload)) ∷ messages xs

  -- A batch of these rows that went through.
  pub record IsDone (xs : Dict OutboxRow) (o : Outbox P) (q : Progress P) : Type 0 where
    pub unraised : q.error ≡ none
    pub counted : q.published ≡ length xs
    pub logged : q.outbox.sent ≡ o.sent ++ messages xs
    pub left : waiting q.outbox.rows + length xs ≡ waiting o.rows

  append_nil : (xs : List (String × Message P)) → xs ++ [] ≡ xs
  append_nil [] = refl
  append_nil (x ∷ xs) = ap (◌∷◌ x) (append_nil xs)

  append_snoc :
      (xs : List (String × Message P)) (x : String × Message P) (ys : List (String × Message P))
      → (xs ++ x ∷ []) ++ ys ≡ xs ++ x ∷ ys
  append_snoc [] x ys = refl
  append_snoc (y ∷ xs) x ys = ap (◌∷◌ y) (append_snoc xs x ys)

  rows-IsDone :
      (xs : Dict OutboxRow) (o : Outbox P)
      → IsDistinct xs
      → AllFound xs o.rows
      → AllOpen xs
      → IsDone xs o (publish_rows read accepting xs o)
  unfolding publish_rows publish_row
  rows-IsDone [] o d f u = record {
    unraised = refl;
    counted = refl;
    logged = sym (append_nil o.sent);
    left = omega arith;
  }
  rows-IsDone ((id, r) ∷ xs) o d f u =
      let next = (publish_row read accepting id r o).outbox in
      let h = rows-IsDone xs next d.1 (others-AllFound read accepting id r o xs d.0 f.1) u.1 in
      record {
        unraised = h.unraised;
        counted = omega (arith, h.counted);
        logged =
            h.logged ∙ append_snoc o.sent (id, message_of read r (reads r.payload)) (messages xs);
        left = omega (arith, h.left, waiting-published id r o.rows f.0 u.0);
      }

  batch-IsDone :
      (limit : ℕ) (o : Outbox P)
      → IsDistinct o.rows
      → IsDone (take limit (pending (λ _. false) o.rows)) o (publish_batch read limit accepting o)
  unfolding publish_batch
  batch-IsDone limit o d =
      let xs = take limit (pending (λ _. false) o.rows) in
      let f = batch-IsFetched limit (λ _. false) o.rows d in
      rows-IsDone xs o f.distinct f.found f.unsent

  -- A batch that meets no lock and no failure publishes the oldest rows that wait, up to its limit, in
  -- their order: it raises nothing, replies with their number, and the broker has acknowledged their
  -- messages and no others.
  publish_batch_exact :
      (limit : ℕ) (o : Outbox P)
      → IsDistinct o.rows
      → let q = publish_batch read limit accepting o in
        (q.error ≡ none)
        × (q.published ≡ min limit (waiting o.rows))
        × (q.outbox.sent ≡ o.sent ++ messages (take limit (pending (λ _. false) o.rows)))
        × (waiting q.outbox.rows ≡ waiting o.rows - limit)
  publish_batch_exact limit o d =
      let h = batch-IsDone limit o d in
      let n = length-batch limit o.rows in
      (h.unraised, h.counted ∙ n, h.logged, omega (arith, h.left, n))

  abbrev pub polls : ℕ → ℕ → List (Happening read)
  polls zero limit = []
  polls (suc n) limit = polled limit accepting ∷ polls n limit

  -- After n batches that meet no lock and no failure, with no insertion between them, n times the limit
  -- fewer rows wait, down to none.
  pub batches_drain :
      (n limit : ℕ) (o : Outbox P)
      → IsDistinct o.rows
      → waiting (run (happen read) o (polls n limit)).rows ≡ waiting o.rows - n * limit
  unfolding happen publish_batch
  batches_drain zero limit o d = omega arith
  batches_drain (suc n) limit o d =
      let next = (publish_batch read limit accepting o).outbox in
      let kept =
        publish_rows-IsDistinct read accepting (take limit (pending (λ _. false) o.rows)) o d in
      let (_, _, _, here) = publish_batch_exact limit o d in
      omega (arith, here, batches_drain n limit next kept)

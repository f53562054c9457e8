-- ===== src/Events/Outbox/Others.antt =====
-- What a batch of apps/api/db/outbox.py leaves of the rows and the keys it does not change.
use voice_mesh.Prelude.{
  ◌≡◌, refl, String, false, Option, none, some, [], ◌∷◌, arith, str_eq, eq_iff,
}
use voice_mesh.Prelude.Dict.{Dict, lookup, has_key, lookup-update_row}
use voice_mesh.Prelude.Distinct.{IsDistinct, update_row-IsDistinct}
use voice_mesh.Events.Outbox.{
  OutboxRow, Message, Outbox, Outcome, done, failed, World, set_published, set_error, message_of,
  noted, marked, log, sent_on, read_on, publish_row, publish_rows,
}
use voice_mesh.Events.Outbox.Order.{AllFound}

-- What one row's turn leaves of the others, and of the keys.
module _ {P : Type 0} (loads : String → Outcome P) where
  noted-others :
      (id e j : String) (o : Outbox P) (answer : Option String)
      → str_eq id j ≡ false
      → lookup j (noted loads id e o answer).outbox.rows ≡ lookup j o.rows
  noted-others id e j o none h = rw (lookup-update_row id j (set_error e) o.rows, h)
  noted-others id e j o (some raised) h = refl

  marked-others :
      (w : World) (id j : String) (o : Outbox P) (answer : Option String)
      → str_eq id j ≡ false
      → lookup j (marked loads w id o answer).outbox.rows ≡ lookup j o.rows
  marked-others w id j o none h = rw (lookup-update_row id j set_published o.rows, h)
  marked-others w id j o (some e) h = noted-others id e j o (w.note id) h

  sent_on-others :
      (w : World) (id j : String) (m : Message P) (o : Outbox P) (answer : Option String)
      → str_eq id j ≡ false
      → lookup j (sent_on loads w id m o answer).outbox.rows ≡ lookup j o.rows
  sent_on-others w id j m o none h = marked-others w id j (log loads id m o) (w.mark id) h
  sent_on-others w id j m o (some e) h = noted-others id e j o (w.note id) h

  read_on-others :
      (w : World) (id j : String) (r : OutboxRow) (o : Outbox P) (read : Outcome P)
      → str_eq id j ≡ false
      → lookup j (read_on loads w id r o read).outbox.rows ≡ lookup j o.rows
  read_on-others w id j r o (done p) h =
      sent_on-others w id j (message_of loads r p) o (w.publish_raw id) h
  read_on-others w id j r o (failed e) h = noted-others id e j o (w.note id) h

  publish_row-others :
      (w : World) (id j : String) (r : OutboxRow) (o : Outbox P)
      → str_eq id j ≡ false
      → lookup j (publish_row loads w id r o).outbox.rows ≡ lookup j o.rows
  unfolding publish_row
  publish_row-others w id j r o h = read_on-others w id j r o (loads r.payload) h

  pub others-AllFound :
      (w : World) (id : String) (r : OutboxRow) (o : Outbox P) (xs : Dict OutboxRow)
      → has_key id xs ≡ false
      → AllFound xs o.rows
      → AllFound xs (publish_row loads w id r o).outbox.rows
  unfolding lookup
  others-AllFound w id r o [] h a = tt
  others-AllFound w id r o ((j, s) ∷ xs) h a = ground (
    arith,
    h,
    a,
    eq_iff id j,
    eq_iff j id,
    publish_row-others w id j r o,
    others-AllFound w id r o xs,
  )

-- The keys stay distinct.
module _ {P : Type 0} (loads : String → Outcome P) where
  noted-IsDistinct :
      (id e : String) (o : Outbox P) (answer : Option String)
      → IsDistinct o.rows
      → IsDistinct (noted loads id e o answer).outbox.rows
  noted-IsDistinct id e o none d = update_row-IsDistinct id (set_error e) o.rows d
  noted-IsDistinct id e o (some raised) d = d

  marked-IsDistinct :
      (w : World) (id : String) (o : Outbox P) (answer : Option String)
      → IsDistinct o.rows
      → IsDistinct (marked loads w id o answer).outbox.rows
  marked-IsDistinct w id o none d = update_row-IsDistinct id set_published o.rows d
  marked-IsDistinct w id o (some e) d = noted-IsDistinct id e o (w.note id) d

  sent_on-IsDistinct :
      (w : World) (id : String) (m : Message P) (o : Outbox P) (answer : Option String)
      → IsDistinct o.rows
      → IsDistinct (sent_on loads w id m o answer).outbox.rows
  sent_on-IsDistinct w id m o none d = marked-IsDistinct w id (log loads id m o) (w.mark id) d
  sent_on-IsDistinct w id m o (some e) d = noted-IsDistinct id e o (w.note id) d

  read_on-IsDistinct :
      (w : World) (id : String) (r : OutboxRow) (o : Outbox P) (read : Outcome P)
      → IsDistinct o.rows
      → IsDistinct (read_on loads w id r o read).outbox.rows
  read_on-IsDistinct w id r o (done p) d =
      sent_on-IsDistinct w id (message_of loads r p) o (w.publish_raw id) d
  read_on-IsDistinct w id r o (failed e) d = noted-IsDistinct id e o (w.note id) d

  pub publish_rows-IsDistinct :
      (w : World) (xs : Dict OutboxRow) (o : Outbox P)
      → IsDistinct o.rows
      → IsDistinct (publish_rows loads w xs o).outbox.rows
  unfolding publish_rows publish_row
  publish_rows-IsDistinct w [] o d = d
  publish_rows-IsDistinct w ((id, r) ∷ xs) o d =
      let next = (publish_row loads w id r o).outbox in
      let here = read_on-IsDistinct w id r o (loads r.payload) d in
      let rest = publish_rows-IsDistinct w xs next here in ground (arith, here, rest)

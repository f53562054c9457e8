-- ===== src/Events/Outbox.antt =====
-- apps/api/db/outbox.py: OutboxPublisher. The rows are a dict by `id`; a payload is the text of its JSON.
-- The broker and the database answer through a World, and `json.loads` is an argument.
pub mod Order
pub mod Others
pub mod Delivery
pub mod Drained
mod Tests
use voice_mesh.Prelude.{
  ℕ, ◌+◌, String, Bool, true, false, not, ◌&&◌, Option, none, some, List, [], ◌∷◌, snoc, take,
  if◌then◌else◌, leb,
}
use voice_mesh.Prelude.Dict.{Dict, insert_new, update_row}

pub record OutboxRow : Type 0 where
  pub topic : String
  pub key : String
  pub payload : String
  pub published : Bool
  pub attempts : ℕ
  pub last_error : Option String
  pub created_at : ℕ

pub record Message (P : Type 0) : Type 0 where
  pub topic : String
  pub key : String
  pub payload : P

-- `sent` is a ledger of the messages that the broker has acknowledged, with the rows they came from.
pub record Outbox (P : Type 0) : Type 0 where
  pub rows : Dict OutboxRow
  pub sent : List (String × Message P)

-- How a call ends: with a value, or with an exception of some text.
pub data Outcome (A : Type 0) : Type 0 where
  done : A → Outcome A
  failed : String → Outcome A

-- During one batch, for a row's id: the locks of other publishers, the answer of the broker to
-- `publish_raw`, and those of the database to the UPDATE after it and to the UPDATE of the handler.
pub record World : Type 0 where
  pub is_locked : String → Bool
  pub publish_raw : String → Option String
  pub mark : String → Option String
  pub note : String → Option String

-- Where a batch stands: its count, and the exception that left it.
pub record Progress (P : Type 0) : Type 0 where
  pub outbox : Outbox P
  pub published : ℕ
  pub error : Option String

abbrev pub set_published : OutboxRow → OutboxRow
set_published r = record r { published = true; attempts = r.attempts + 1; last_error = none }

abbrev pub set_error : String → OutboxRow → OutboxRow
set_error e r = record r { attempts = r.attempts + 1; last_error = some e }

-- Insertion behind the rows that are as old.
unfoldable pub place : String × OutboxRow → Dict OutboxRow → Dict OutboxRow
place x [] = x ∷ []
place (k, r) ((j, s) ∷ rows) =
    let rest = place (k, r) rows in
    if leb s.created_at r.created_at then (j, s) ∷ rest else (k, r) ∷ (j, s) ∷ rows

-- The rows that the SELECT may take, oldest first.
unfoldable pub pending : (String → Bool) → Dict OutboxRow → Dict OutboxRow
unfolding place
pending is_locked [] = []
pending is_locked ((k, r) ∷ rows) =
    let rest = pending is_locked rows in
    if not r.published && not (is_locked k) then place (k, r) rest else rest

module _ {P : Type 0} (loads : String → Outcome P) where
  abbrev pub message_of : OutboxRow → P → Message P
  message_of r p = record { topic = r.topic; key = r.key; payload = p }

  -- The handler of `publish_batch` for one row, by the answer to its UPDATE.
  abbrev pub noted : String → String → Outbox P → Option String → Progress P
  noted id e o none = record {
    outbox = record o { rows = update_row id (set_error e) o.rows };
    published = 0;
    error = none;
  }
  noted id e o (some raised) = record { outbox = o; published = 0; error = some raised }

  -- What follows `publish_raw`, by the answer to the UPDATE.
  abbrev pub marked : World → String → Outbox P → Option String → Progress P
  marked w id o none = record {
    outbox = record o { rows = update_row id set_published o.rows };
    published = 1;
    error = none;
  }
  marked w id o (some e) = noted id e o (w.note id)

  abbrev pub log : String → Message P → Outbox P → Outbox P
  log id message o = record o { sent = snoc o.sent (id, message) }

  -- `publish_raw` and what follows, by the answer of the broker.
  abbrev pub sent_on : World → String → Message P → Outbox P → Option String → Progress P
  sent_on w id message o none = marked w id (log id message o) (w.mark id)
  sent_on w id message o (some e) = noted id e o (w.note id)

  abbrev pub read_on : World → String → OutboxRow → Outbox P → Outcome P → Progress P
  read_on w id r o (done p) = sent_on w id (message_of r p) o (w.publish_raw id)
  read_on w id r o (failed e) = noted id e o (w.note id)

  -- The body of the loop, for one fetched row.
  unfoldable pub publish_row : World → String → OutboxRow → Outbox P → Progress P
  publish_row w id r o = read_on w id r o (loads r.payload)

  -- An exception leaves the loop.
  abbrev pub go_on : Progress P → Progress P → Option String → Progress P
  go_on p rest none = record rest { published = p.published + rest.published }
  go_on p rest (some e) = p

  -- The loop over the fetched rows, which an exception leaves.
  unfoldable pub publish_rows : World → Dict OutboxRow → Outbox P → Progress P
  unfolding publish_row
  publish_rows w [] o = record { outbox = o; published = 0; error = none }
  publish_rows w ((id, r) ∷ rows) o =
      let p = publish_row w id r o in
      let rest = publish_rows w rows p.outbox in go_on p rest p.error

  unfoldable pub publish_batch : ℕ → World → Outbox P → Progress P
  unfolding publish_rows pending
  publish_batch limit w o = publish_rows w (take limit (pending w.is_locked o.rows)) o

  -- What happens to the outbox: a transaction inserts a row, or `run` publishes a batch and catches
  -- what it raises.
  pub data Happening : Type 0 where
    inserted : (id topic key payload : String) (now : ℕ) → Happening
    polled : (limit : ℕ) (w : World) → Happening

  abbrev pub new_row : String → String → String → ℕ → OutboxRow
  new_row topic key payload now = record {
    topic = topic;
    key = key;
    payload = payload;
    published = false;
    attempts = 0;
    last_error = none;
    created_at = now;
  }

  unfoldable pub happen : Outbox P → Happening → Outbox P
  unfolding publish_batch
  happen o (inserted id topic key payload now) = record o {
    rows = insert_new id (new_row topic key payload now) o.rows;
  }
  happen o (polled limit w) = (publish_batch limit w o).outbox

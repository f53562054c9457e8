-- ===== src/Events/Outbox/Order.antt =====
-- The rows that the SELECT of apps/api/db/outbox.py takes.
use voice_mesh.Prelude.{
  ℕ, zero, suc, ◌≡◌, refl, String, Bool, false, ◌||◌, some, [], ◌∷◌, arith, if◌then◌else◌, str_eq,
  eq_iff, length, take, min,
}
use voice_mesh.Prelude.Dict.{Dict, lookup, has_key}
use voice_mesh.Prelude.Distinct.{IsDistinct}
use voice_mesh.Events.Outbox.{OutboxRow, place, pending}

-- Each fetched row is as it stands in the table.
abbrev pub AllFound : Dict OutboxRow → Dict OutboxRow → Type 0
AllFound [] rows = Unit {0}
AllFound ((k, r) ∷ xs) rows = (lookup k rows ≡ some r) × AllFound xs rows

-- None of the fetched rows is published.
abbrev pub AllOpen : Dict OutboxRow → Type 0
AllOpen [] = Unit {0}
AllOpen ((k, r) ∷ xs) = (r.published ≡ false) × AllOpen xs

-- How many rows wait for their publication.
abbrev pub waiting : Dict OutboxRow → ℕ
waiting [] = 0
waiting ((k, r) ∷ rows) = let n = waiting rows in if r.published then n else suc n

has_key-place :
    (k j : String) (r : OutboxRow) (rows : Dict OutboxRow)
    → has_key j (place (k, r) rows) ≡ (str_eq k j || has_key j rows)
unfolding place lookup
has_key-place k j r [] = ground arith
has_key-place k j r ((i, s) ∷ rows) = ground (arith, has_key-place k j r rows)

place-IsDistinct :
    (k : String) (r : OutboxRow) (rows : Dict OutboxRow)
    → has_key k rows ≡ false
    → IsDistinct rows
    → IsDistinct (place (k, r) rows)
unfolding place lookup
place-IsDistinct k r [] h d = (refl, tt)
place-IsDistinct k r ((i, s) ∷ rows) h d =
    ground
      (arith, h, d, eq_iff i k, eq_iff k i, has_key-place k i r rows, place-IsDistinct k r rows)

place-AllFound :
    (k : String) (r : OutboxRow) (xs rows : Dict OutboxRow)
    → lookup k rows ≡ some r
    → AllFound xs rows
    → AllFound (place (k, r) xs) rows
unfolding place
place-AllFound k r [] rows h a = (h, tt)
place-AllFound k r ((i, s) ∷ xs) rows h a = ground (arith, h, a, place-AllFound k r xs rows)

place-AllOpen :
    (k : String) (r : OutboxRow) (xs : Dict OutboxRow)
    → r.published ≡ false
    → AllOpen xs
    → AllOpen (place (k, r) xs)
unfolding place
place-AllOpen k r [] h a = (h, tt)
place-AllOpen k r ((i, s) ∷ xs) h a = ground (arith, h, a, place-AllOpen k r xs)

length-place :
    (k : String) (r : OutboxRow) (xs : Dict OutboxRow) → length (place (k, r) xs) ≡ suc (length xs)
unfolding place
length-place k r [] = refl
length-place k r ((i, s) ∷ xs) = ground (arith, length-place k r xs)

has_key-pending :
    (locked : String → Bool) (k : String) (rows : Dict OutboxRow)
    → has_key k rows ≡ false
    → has_key k (pending locked rows) ≡ false
unfolding pending lookup
has_key-pending locked k [] h = refl
has_key-pending locked k ((i, s) ∷ rows) h =
    ground (arith, h, has_key-place i k s (pending locked rows), has_key-pending locked k rows)

pub pending-IsDistinct :
    (locked : String → Bool) (rows : Dict OutboxRow)
    → IsDistinct rows
    → IsDistinct (pending locked rows)
unfolding pending
pending-IsDistinct locked [] d = tt
pending-IsDistinct locked ((i, s) ∷ rows) d = ground (
  arith,
  d,
  place-IsDistinct i s (pending locked rows) (has_key-pending locked i rows d.0),
  pending-IsDistinct locked rows d.1,
)

AllFound-cons :
    (k : String) (r : OutboxRow) (xs rows : Dict OutboxRow)
    → has_key k rows ≡ false
    → AllFound xs rows
    → AllFound xs ((k, r) ∷ rows)
unfolding lookup
AllFound-cons k r [] rows h a = tt
AllFound-cons k r ((i, s) ∷ xs) rows h a =
    ground (arith, h, a.0, a.1, eq_iff k i, AllFound-cons k r xs rows h a.1)

-- Rows that one SELECT may have fetched.
pub record IsFetched (xs rows : Dict OutboxRow) : Type 0 where
  pub distinct : IsDistinct xs
  pub found : AllFound xs rows
  pub unsent : AllOpen xs

pending-AllFound :
    (locked : String → Bool) (rows : Dict OutboxRow)
    → IsDistinct rows
    → AllFound (pending locked rows) rows
unfolding pending lookup
pending-AllFound locked [] d = tt
pending-AllFound locked ((i, s) ∷ rows) d =
    let kept =
      AllFound-cons i s (pending locked rows) rows d.0 (pending-AllFound locked rows d.1) in
    ground (arith, kept, eq_iff i i, place-AllFound i s (pending locked rows) ((i, s) ∷ rows))

pending-AllOpen : (locked : String → Bool) (rows : Dict OutboxRow) → AllOpen (pending locked rows)
unfolding pending
pending-AllOpen locked [] = tt
pending-AllOpen locked ((i, s) ∷ rows) =
    ground (arith, place-AllOpen i s (pending locked rows), pending-AllOpen locked rows)

has_key-take :
    (n : ℕ) (k : String) (xs : Dict OutboxRow)
    → has_key k xs ≡ false
    → has_key k (take n xs) ≡ false
unfolding lookup
has_key-take zero k xs h = refl
has_key-take (suc n) k [] h = refl
has_key-take (suc n) k ((i, s) ∷ xs) h = ground (arith, h, has_key-take n k xs)

take-IsFetched : (n : ℕ) (xs rows : Dict OutboxRow) → IsFetched xs rows → IsFetched (take n xs) rows
take-IsFetched zero xs rows h = record { distinct = tt; found = tt; unsent = tt }
take-IsFetched (suc n) [] rows h = record { distinct = tt; found = tt; unsent = tt }
take-IsFetched (suc n) ((i, s) ∷ xs) rows h =
    let rest =
      take-IsFetched n xs rows
        (record { distinct = h.distinct.1; found = h.found.1; unsent = h.unsent.1 }) in
    record {
      distinct = (has_key-take n i xs h.distinct.0, rest.distinct);
      found = (h.found.0, rest.found);
      unsent = (h.unsent.0, rest.unsent);
    }

pub batch-IsFetched :
    (limit : ℕ) (locked : String → Bool) (rows : Dict OutboxRow)
    → IsDistinct rows
    → IsFetched (take limit (pending locked rows)) rows
batch-IsFetched limit locked rows d = take-IsFetched limit (pending locked rows) rows (record {
  distinct = pending-IsDistinct locked rows d;
  found = pending-AllFound locked rows d;
  unsent = pending-AllOpen locked rows;
})

length-pending : (rows : Dict OutboxRow) → length (pending (λ _. false) rows) ≡ waiting rows
unfolding pending
length-pending [] = refl
length-pending ((i, s) ∷ rows) =
    ground (arith, length-place i s (pending (λ _. false) rows), length-pending rows)

length-take : (n : ℕ) (xs : Dict OutboxRow) → length (take n xs) ≡ min n (length xs)
length-take zero xs = omega arith
length-take (suc n) [] = omega arith
length-take (suc n) (x ∷ xs) = omega (arith, length-take n xs)

pub length-batch :
    (limit : ℕ) (rows : Dict OutboxRow)
    → length (take limit (pending (λ _. false) rows)) ≡ min limit (waiting rows)
length-batch limit rows = rw (length-take, length-pending) refl

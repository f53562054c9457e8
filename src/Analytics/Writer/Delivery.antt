-- ===== src/Analytics/Writer/Delivery.antt =====
-- Which rows go in, and in which batches.
use mathlib.Core.List.{append-nil, append_assoc}
use voice_mesh.Prelude.{
  ℕ, zero, suc, ◌*◌, ◌≡◌, refl, ◌∙◌, ap, sym, Bool, true, false, none, List, [], ◌∷◌, ◌++◌, snoc,
  arith, leb, ltb, if◌then◌else◌, length,
}
use voice_mesh.Analytics.Writer.{
  WriterConfig, Writer, RetryOutcome, returned, raised, buffered_since, insert_rows, flush_rows,
  flush, add, add_all, insert_with_retry,
}

went_through :
    {S : Type 0} (P : S → Type 0) (b : Bool) (later : Bool × S) (s : S)
    → (b ≡ true → later.0 ≡ true → P later.1)
    → (if b then later else (false, s)).0 ≡ true
    → P (if b then later else (false, s)).1
went_through P true later s h q = h refl q
went_through P false later s h q = cc

retried_through :
    {S : Type 0} (P : S → Type 0) (b d : Bool) (later : RetryOutcome × S) (s : S)
    → (b ≡ true → P s)
    → (later.0 ≡ returned → P later.1)
    → (if b then (returned, s) else if d then (raised, s) else later).0 ≡ returned
    → P (if b then (returned, s) else if d then (raised, s) else later).1
retried_through P true d later s h k q = h refl
retried_through P false true later s h k q = cc
retried_through P false false later s h k q = k q

module _ {R : Type 0} where
  -- All rows that went in, in their order.
  abbrev pub all_rows : List (List R) → List R
  all_rows [] = []
  all_rows (b ∷ bs) = b ++ all_rows bs

  all_rows-snoc : (bs : List (List R)) (b : List R) → all_rows (snoc bs b) ≡ all_rows bs ++ b
  all_rows-snoc [] b = append-nil b
  all_rows-snoc (x ∷ bs) b =
      ap (λ r. x ++ r) (all_rows-snoc bs b) ∙ sym (append_assoc x (all_rows bs) b)

module _ {R : Type 0} (accepts : ℕ → List R → Bool) where
  -- A step that returned has put in what was there and `more`, up to the buffer.
  flush_moves :
      (rows : List R) (w : Writer R)
      → (flush_rows accepts rows w).0 ≡ true
      → (all_rows (flush_rows accepts rows w).1.inserted ≡ all_rows w.inserted ++ rows)
        × ((flush_rows accepts rows w).1.rows ≡ w.rows)
  unfolding flush_rows insert_rows
  flush_moves [] w h = (sym (append-nil (all_rows w.inserted)), refl)
  flush_moves (x ∷ xs) w h = ground (arith, all_rows-snoc w.inserted (x ∷ xs))

  -- A flush that returned leaves nothing in the buffer.
  pub flush-moves :
      (w : Writer R)
      → (flush accepts w).0 ≡ true
      → (all_rows (flush accepts w).1.inserted ≡ all_rows w.inserted ++ w.rows)
        × ((flush accepts w).1.rows ≡ [])
  unfolding flush
  flush-moves w h = flush_moves w.rows (record w { rows = []; first_buffered_at = none }) h

  add_moves :
      (c : WriterConfig) (now : ℕ) (row : R) (w : Writer R)
      → (add accepts c now row w).0 ≡ true
      → all_rows (add accepts c now row w).1.inserted ++ (add accepts c now row w).1.rows
        ≡ (all_rows w.inserted ++ w.rows) ++ row ∷ []
  unfolding add
  add_moves c now row w h =
      let w' = record w { rows = snoc w.rows row; first_buffered_at = buffered_since w now } in
      split (leb c.max_rows (length w'.rows)) h
    where
      split :
          (b : Bool)
          → (let w' = record w {
            rows = snoc w.rows row;
            first_buffered_at = buffered_since w now;
          } in
              (if b then flush accepts w' else (true, w')).0 ≡ true)
          → (let w' = record w {
            rows = snoc w.rows row;
            first_buffered_at = buffered_since w now;
          } in
              let r = (if b then flush accepts w' else (true, w')).1 in
              all_rows r.inserted ++ r.rows ≡ (all_rows w.inserted ++ w.rows) ++ row ∷ [])
      split true k =
          let w' = record w { rows = snoc w.rows row; first_buffered_at = buffered_since w now } in
          let (i, e) = flush-moves w' k in
          ap (λ x. all_rows (flush accepts w').1.inserted ++ x) e
          ∙ append-nil (all_rows (flush accepts w').1.inserted)
          ∙ i
          ∙ sym (append_assoc (all_rows w.inserted) w.rows (row ∷ []))
      split false k = sym (append_assoc (all_rows w.inserted) w.rows (row ∷ []))

  -- A pass that returns has inserted the buffer and then all the rows, in their order, behind what
  -- was there, and leaves the buffer empty.
  pub add_all-moves :
      (c : WriterConfig) (now : ℕ) (rows : List R) (w : Writer R)
      → (add_all accepts c now rows w).0 ≡ true
      → (all_rows (add_all accepts c now rows w).1.inserted
          ≡ (all_rows w.inserted ++ w.rows) ++ rows)
        × ((add_all accepts c now rows w).1.rows ≡ [])
  unfolding add_all
  add_all-moves c now [] w h =
      let (i, e) = flush-moves w h in (i ∙ sym (append-nil (all_rows w.inserted ++ w.rows)), e)
  add_all-moves c now (row ∷ rest) w h =
      let (b, w') = add accepts c now row w in
      let target = (all_rows w.inserted ++ w.rows) ++ (row ∷ rest) in
      went_through (λ (v : Writer R). (all_rows v.inserted ≡ target) × (v.rows ≡ [])) b
        (add_all accepts c now rest w') w'
        (λ k l.
          let (i, e) = add_all-moves c now rest w' l in
          (
            i
                ∙ ap (λ x. x ++ rest) (add_moves c now row w k)
                ∙ append_assoc (all_rows w.inserted ++ w.rows) (row ∷ []) rest,
            e,
          ))
        h

  -- When `_insert_with_retry` returns, whichever inserts failed on the way, the rows were all
  -- inserted, in their order and after everything else, and the buffer is empty.
  pub insert_with_retry-delivers :
      (c : WriterConfig) (now max_retry fuel delay : ℕ) (rows : List R) (w : Writer R)
      → (insert_with_retry accepts c now max_retry fuel delay rows w).0 ≡ returned
      → let v = (insert_with_retry accepts c now max_retry fuel delay rows w).1 in
        ((before : List R) × (all_rows v.inserted ≡ before ++ rows)) × (v.rows ≡ [])
  unfolding insert_with_retry
  insert_with_retry-delivers c now max_retry zero delay rows w h = cc
  insert_with_retry-delivers c now max_retry (suc fuel) delay rows w h =
      let (ok, w') = add_all accepts c now rows w in
      let later = insert_with_retry accepts c now max_retry fuel (delay * 2) rows w' in
      retried_through
        (λ (v : Writer R).
          ((before : List R) × (all_rows v.inserted ≡ before ++ rows)) × (v.rows ≡ []))
        ok (ltb max_retry delay) later w'
        (λ k. let (i, e) = add_all-moves c now rows w k in ((all_rows w.inserted ++ w.rows, i), e))
        (insert_with_retry-delivers c now max_retry fuel (delay * 2) rows w') h

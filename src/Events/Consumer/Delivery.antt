-- ===== src/Events/Consumer/Delivery.antt =====
-- What the consumer hands to its handler, and what its commits cover.
use voice_mesh.Prelude.{
  ℕ, suc, ◌≡◌, refl, ◌∙◌, ap, sym, inl, inr, ◌⊎◌, true, Option, none, some, List, [], ◌∷◌, ◌++◌,
  arith, length,
}
use mathlib.Core.List.{append-nil, append_assoc}
use voice_mesh.Prelude.Traces.{run, run_induction}
use voice_mesh.Events.Offsets.{
  TopicPartition, Offsets, offset_at, raise_offset, same_partition, Reaches, Reaches-raise_offset,
  Reaches-kept, raise_inv,
}
use voice_mesh.Events.Tables.{ConsumedEvent}
use voice_mesh.Events.Consumer.{
  ConsumerConfig, Buffer, Round, take_round, commit_offsets, commit_batch, is_empty,
}

-- The loop so far: its variables, all that was decoded, and what was handed over, with the batches.
pub record Session (N : Type 0) : Type 0 where
  pub buffer : Buffer N
  pub polled : List (ConsumedEvent N)
  pub handled : List (ConsumedEvent N)
  pub batches : List (List (ConsumedEvent N))

ended_batch : (p : TopicPartition) (n : ℕ) (x : Type 0) → x ⊎ (offset_at p [] ≡ some n) → x
unfolding offset_at
ended_batch p n x (inl h) = h
ended_batch p n x (inr h) = cc

module _ {N : Type 0} where
  abbrev pub batch_of : Option (List (ConsumedEvent N)) → List (ConsumedEvent N)
  batch_of none = []
  batch_of (some b) = b

  abbrev batches_of : Option (List (ConsumedEvent N)) → List (List (ConsumedEvent N))
  batches_of none = []
  batches_of (some b) = b ∷ []

  unfoldable pub next : ConsumerConfig → Session N → Round N → Session N
  next c s r =
      let (b, o) = take_round c r s.buffer in
      record {
        buffer = b;
        polled = s.polled ++ r.decoded;
        handled = s.handled ++ batch_of o;
        batches = s.batches ++ batches_of o;
      }

  abbrev pub session : ℕ → Session N
  session deadline = record {
    buffer = record { buffered = []; batch_deadline = deadline };
    polled = [];
    handled = [];
    batches = [];
  }

  round_splits :
      (c : ConsumerConfig) (r : Round N) (b : Buffer N)
      → batch_of (take_round c r b).1 ++ (take_round c r b).0.buffered ≡ b.buffered ++ r.decoded
  unfolding take_round
  round_splits c r b = ground (arith, append-nil (b.buffered ++ r.decoded))

  -- All that was decoded, in its order, is what was handed over followed by what is buffered.
  abbrev pub IsInOrder : Session N → Type 0
  IsInOrder s = s.handled ++ s.buffer.buffered ≡ s.polled

  next-IsInOrder :
      (c : ConsumerConfig) (s : Session N) (r : Round N) → IsInOrder s → IsInOrder (next c s r)
  unfolding next
  next-IsInOrder c s r h =
      let o = (take_round c r s.buffer).1 in
      append_assoc s.handled (batch_of o) (take_round c r s.buffer).0.buffered
      ∙ ap (λ x. s.handled ++ x) (round_splits c r s.buffer)
      ∙ sym (append_assoc s.handled s.buffer.buffered r.decoded)
      ∙ ap (λ x. x ++ r.decoded) h

  -- After any rounds, the events handed over and then those in the buffer are the events decoded, in
  -- their order: the loop loses, repeats and reorders none.
  pub rounds-IsInOrder :
      (c : ConsumerConfig) (deadline : ℕ) (rounds : List (Round N))
      → IsInOrder (run (next c) (session deadline) rounds)
  rounds-IsInOrder c deadline rounds =
      run_induction (next c) IsInOrder (next-IsInOrder c) (session deadline) rounds refl

  is_empty-length : (is : List (ConsumedEvent N)) → is_empty is ≡ true → length is ≡ 0
  is_empty-length [] h = refl
  is_empty-length (i ∷ is) h = cc

  -- An event of the partition whose offset is the last one below `n`.
  abbrev pub HasEnd : TopicPartition → ℕ → List (ConsumedEvent N) → Type 0
  HasEnd p n [] = ⊥
  HasEnd p n (i ∷ is) = ((same_partition i.source p ≡ true) × (suc i.offset ≡ n)) ⊎ HasEnd p n is

  -- All events lie below the offset of their partition.
  abbrev pub AllBelow : Offsets → List (ConsumedEvent N) → Type 0
  AllBelow d [] = Unit
  AllBelow d (i ∷ is) = Reaches (suc i.offset) (offset_at i.source d) × AllBelow d is

  commit-Reaches :
      (batch : List (ConsumedEvent N)) (d : Offsets) (p : TopicPartition) (n : ℕ)
      → Reaches n (offset_at p d)
      → Reaches n (offset_at p (commit_offsets batch d))
  unfolding commit_offsets
  commit-Reaches [] d p n h = h
  commit-Reaches (i ∷ is) d p n h =
      commit-Reaches is (raise_offset i.source (suc i.offset) d) p n
        (Reaches-kept i.source p n (suc i.offset) d h)

  pub commit-AllBelow :
      (batch : List (ConsumedEvent N)) (d : Offsets) → AllBelow (commit_offsets batch d) batch
  unfolding commit_offsets
  commit-AllBelow [] d = tt
  commit-AllBelow (i ∷ is) d =
      let d' = raise_offset i.source (suc i.offset) d in
      (
        commit-Reaches is d' i.source (suc i.offset)
            (Reaches-raise_offset i.source (suc i.offset) d),
        commit-AllBelow is d',
      )

  commit-HasEnd :
      (batch : List (ConsumedEvent N)) (d : Offsets) (p : TopicPartition) (n : ℕ)
      → offset_at p (commit_offsets batch d) ≡ some n
      → HasEnd p n batch ⊎ (offset_at p d ≡ some n)
  unfolding commit_offsets
  commit-HasEnd [] d p n h = inr h
  commit-HasEnd (i ∷ is) d p n h =
      elim (commit-HasEnd is (raise_offset i.source (suc i.offset) d) p n h) [
        | inl e ↦ inl (inr e)
        | inr e ↦ elim (raise_inv p i.source (suc i.offset) n d e) [
          | inl k ↦ inl (inl k)
          | inr k ↦ inr k
        ]
      ]

  -- `_commit_batch` commits, for each partition of the batch, an offset above every event of the
  -- batch from there, and just one above some event of the batch from there.
  pub commit_batch_exact :
      (batch : List (ConsumedEvent N)) (p : TopicPartition) (n : ℕ)
      → offset_at p (commit_batch batch) ≡ some n
      → AllBelow (commit_batch batch) batch × HasEnd p n batch
  commit_batch_exact batch p n h =
      (commit-AllBelow batch [], ended_batch p n (HasEnd p n batch) (commit-HasEnd batch [] p n h))

-- ===== src/Events/Offsets.antt =====
-- Offsets by topic and partition, as `_commit_batch` and the projection's watermarks keep them.
use voice_mesh.Prelude.{
  ℕ, ◌≡◌, ◌≤◌, refl, ◌⊎◌, String, Bool, true, ◌&&◌, Option, none, some, List, [], ◌∷◌, max, ◌==◌,
  if◌then◌else◌, str_eq, str_eq_refl, eq_iff, arith,
}

pub record TopicPartition : Type 0 where
  pub topic : String
  pub partition : ℕ

abbrev pub same_partition : TopicPartition → TopicPartition → Bool
same_partition p q = str_eq p.topic q.topic && p.partition == q.partition

abbrev pub Offsets : Type 0
Offsets = List (TopicPartition × ℕ)

unfoldable pub offset_at : TopicPartition → Offsets → Option ℕ
offset_at p [] = none
offset_at p ((q, n) ∷ d) = if same_partition q p then some n else offset_at p d

-- `d[p] = max(d.get(p, lowest), n)`, for an `n` that is not below the lowest.
unfoldable pub raise_offset : TopicPartition → ℕ → Offsets → Offsets
raise_offset p n [] = (p, n) ∷ []
raise_offset p n ((q, m) ∷ d) =
    let rest = raise_offset p n d in if same_partition q p then (q, max m n) ∷ d else (q, m) ∷ rest

-- The offset is at least `n`.
abbrev pub Reaches : ℕ → Option ℕ → Type 0
Reaches n none = ⊥
Reaches n (some m) = n ≤ m

pub same_partition_refl : (p : TopicPartition) → same_partition p p ≡ true
same_partition_refl p = ground (arith, str_eq_refl p.topic)

pub Reaches-raise_offset :
    (p : TopicPartition) (n : ℕ) (d : Offsets) → Reaches n (offset_at p (raise_offset p n d))
unfolding offset_at raise_offset
Reaches-raise_offset p n [] = ground (arith, same_partition_refl p)
Reaches-raise_offset p n ((q, m) ∷ d) =
    ground (arith, same_partition_refl p, Reaches-raise_offset p n d)

-- Two partitions that are the same hold the same offset.
pub offset-same :
    (p q : TopicPartition) (d : Offsets) → same_partition p q ≡ true → offset_at p d ≡ offset_at q d
unfolding offset_at
offset-same p q [] h = refl
offset-same p q ((r, m) ∷ d) h = ground (
  arith,
  offset-same p q d,
  eq_iff p.topic q.topic,
  eq_iff r.topic p.topic,
  eq_iff r.topic q.topic,
)

-- What is reached stays reached, and to raise what is reached changes nothing.
pub Reaches-kept :
    (p q : TopicPartition) (m n : ℕ) (d : Offsets)
    → Reaches m (offset_at q d)
    → Reaches m (offset_at q (raise_offset p n d))
unfolding offset_at raise_offset
Reaches-kept p q m n [] h = absurd h
Reaches-kept p q m n ((r, k) ∷ d) h = ground (arith, Reaches-kept p q m n d)

pub raise_reached :
    (p : TopicPartition) (n : ℕ) (d : Offsets) → Reaches n (offset_at p d) → raise_offset p n d ≡ d
unfolding offset_at raise_offset
raise_reached p n [] h = absurd h
raise_reached p n ((q, m) ∷ d) h = ground (arith, raise_reached p n d)

-- An offset after a raise is the new one, or the one from before.
pub raise_inv :
    (p q : TopicPartition) (k n : ℕ) (d : Offsets)
    → offset_at p (raise_offset q k d) ≡ some n
    → ((same_partition q p ≡ true) × (k ≡ n)) ⊎ (offset_at p d ≡ some n)
unfolding offset_at raise_offset
raise_inv p q k n [] h = ground arith
raise_inv p q k n ((r, m) ∷ d) h = ground (
  arith,
  raise_inv p q k n d,
  eq_iff r.topic q.topic,
  eq_iff r.topic p.topic,
  eq_iff q.topic p.topic,
)

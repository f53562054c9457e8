-- ===== src/Events/Batch/Watermarks.antt =====
-- The watermarks of a consumer group never fall, and reach what the group has projected.
use voice_mesh.Prelude.{
  ℕ, ◌≤◌, ◌≡◌, refl, String, Bool, true, Bool-cases, inl, inr, ◌⊎◌, false, Option, none, some, [],
  ◌∷◌, max, arith, if◌then◌else◌, sym, subst, ap,
}
use voice_mesh.Prelude.Dict.{Dict, lookup, insert, lookup-insert_self, insert_known}
use voice_mesh.Events.Offsets.{
  TopicPartition, Offsets, offset_at, raise_offset, same_partition, Reaches, Reaches-raise_offset,
  Reaches-kept, raise_reached, offset-same,
}
use voice_mesh.Events.Batch.{or_empty, watermarks_of, upsert_watermark, save_watermarks}

-- The group's watermark of the partition is at least `n`.
abbrev pub IsReached : String → Dict Offsets → TopicPartition → ℕ → Type 0
IsReached g t p n = Reaches n (offset_at p (watermarks_of g t))

watermarks-insert :
    (g : String) (d : Offsets) (t : Dict Offsets) → watermarks_of g (insert g d t) ≡ d
watermarks-insert g d t = ap or_empty (lookup-insert_self g d t)

pub upsert-IsReached :
    (g : String) (p : TopicPartition) (n : ℕ) (t : Dict Offsets)
    → IsReached g (upsert_watermark g p n t) p n
unfolding upsert_watermark
upsert-IsReached g p n t =
    rw (watermarks-insert g (raise_offset p n (watermarks_of g t)) t)
      (Reaches-raise_offset p n (watermarks_of g t))

pub upsert_keeps :
    (g : String) (p q : TopicPartition) (m n : ℕ) (t : Dict Offsets)
    → IsReached g t q m
    → IsReached g (upsert_watermark g p n t) q m
unfolding upsert_watermark
upsert_keeps g p q m n t h =
    rw (watermarks-insert g (raise_offset p n (watermarks_of g t)) t)
      (Reaches-kept p q m n (watermarks_of g t) h)

reached_row :
    (g : String) (p : TopicPartition) (n : ℕ) (o : Option Offsets) (t : Dict Offsets)
    → lookup g t ≡ o
    → IsReached g t p n
    → upsert_watermark g p n t ≡ t
unfolding upsert_watermark offset_at
reached_row g p n none t e h = absurd (subst (λ o. Reaches n (offset_at p (or_empty o))) e h)
reached_row g p n (some d) t e h =
    rw (e, raise_reached p n d (subst (λ o. Reaches n (offset_at p (or_empty o))) e h))
      (insert_known g d t e)

-- A watermark that is reached is written back as it is.
pub upsert_reached :
    (g : String) (p : TopicPartition) (n : ℕ) (t : Dict Offsets)
    → IsReached g t p n
    → upsert_watermark g p n t ≡ t
upsert_reached g p n t h = reached_row g p n (lookup g t) t refl h

pub save_keeps :
    (g : String) (w : Offsets) (q : TopicPartition) (m : ℕ) (t : Dict Offsets)
    → IsReached g t q m
    → IsReached g (save_watermarks g w t) q m
unfolding save_watermarks
save_keeps g [] q m t h = h
save_keeps g ((p, n) ∷ w) q m t h =
    save_keeps g w q m (upsert_watermark g p n t) (upsert_keeps g p q m n t h)

-- All of a batch's watermarks are reached.
abbrev pub AllReached : String → Dict Offsets → Offsets → Type 0
AllReached g t [] = Unit
AllReached g t ((p, n) ∷ w) = IsReached g t p n × AllReached g t w

AllReached-keep :
    (g : String) (p : TopicPartition) (n : ℕ) (w : Offsets) (t : Dict Offsets)
    → AllReached g t w
    → AllReached g (upsert_watermark g p n t) w
AllReached-keep g p n [] t h = tt
AllReached-keep g p n ((q, m) ∷ w) t h =
    (upsert_keeps g p q m n t h.0, AllReached-keep g p n w t h.1)

pub save_reached :
    (g : String) (w : Offsets) (t : Dict Offsets) → AllReached g t w → save_watermarks g w t ≡ t
unfolding save_watermarks
save_reached g [] t h = refl
save_reached g ((p, n) ∷ w) t h = rw (upsert_reached g p n t h.0) (save_reached g w t h.1)

Reaches-max : (m n : ℕ) (o : Option ℕ) → Reaches m o → Reaches n o → Reaches (max m n) o
Reaches-max m n none h k = h
Reaches-max m n (some x) h k = ground arith

pub raise-AllReached :
    (g : String) (p : TopicPartition) (n : ℕ) (w : Offsets) (t : Dict Offsets)
    → IsReached g t p n
    → AllReached g t w
    → AllReached g t (raise_offset p n w)
unfolding raise_offset
raise-AllReached g p n [] t h k = (h, tt)
raise-AllReached g p n ((q, m) ∷ w) t h k = elim (Bool-cases (same_partition q p)) [
  | inl e ↦ rw (e) (
    Reaches-max m n (offset_at q (watermarks_of g t)) k.0
        (subst (Reaches n) (sym (offset-same q p (watermarks_of g t) e)) h),
    k.1,
  )
  | inr e ↦ rw (e) (k.0, raise-AllReached g p n w t h k.1)
]

Reaches-le : (m n : ℕ) (o : Option ℕ) → n ≤ m → Reaches m o → Reaches n o
Reaches-le m n none h k = k
Reaches-le m n (some x) h k = omega arith

reach_cases :
    (b : Bool) (m n : ℕ) (o : Option ℕ)
    → Reaches n (if b then some m else o)
    → ((b ≡ true) × (n ≤ m)) ⊎ Reaches n o
reach_cases true m n o h = inl (refl, h)
reach_cases false m n o h = inr h

-- What the batch's own watermarks reach, the table reaches once they are saved.
pub save-IsReached :
    (g : String) (w : Offsets) (p : TopicPartition) (n : ℕ) (t : Dict Offsets)
    → Reaches n (offset_at p w)
    → IsReached g (save_watermarks g w t) p n
unfolding save_watermarks offset_at
save-IsReached g [] p n t h = absurd h
save-IsReached g ((q, m) ∷ w) p n t h =
    let t' = upsert_watermark g q m t in
    elim (reach_cases (same_partition q p) m n (offset_at p w) h) [
      | inl (e, k) ↦ save_keeps g w p n t' (
          Reaches-le m n (offset_at p (watermarks_of g t')) k
            (subst (Reaches m) (offset-same q p (watermarks_of g t') e) (upsert-IsReached g q m t)))
      | inr k ↦ save-IsReached g w p n t' k
    ]

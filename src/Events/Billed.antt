-- ===== src/Events/Billed.antt =====
-- The running bill of every call adds up, whatever events are projected.

pub mod Projected
use voice_mesh.Prelude.{
  ℕ, String, ◌≡◌, refl, ◌∙◌, ap, sym, subst, Bool, Bool-cases, inl, inr, true, false, not, Option,
  none, some, List, [], ◌∷◌, arith, if◌then◌else◌, str_eq, str_eq_refl, snoc, eq_iff,
}
use voice_mesh.Prelude.Dict.{
  Dict, lookup, lookup-update_row, lookup-insert_new, insert_new, update_row,
}
use voice_mesh.Prelude.Results.{Result, ok, err, ◌>>=◌, bind_inv, ok_inj}
use voice_mesh.Events.Offsets.{TopicPartition}
use voice_mesh.Events.Tables.{
  PipelineEvent, ConsumedEvent, Measurement, Price, Billing, UsageRecord, Database,
}
use voice_mesh.Events.Bill.{
  Settings, sum_cost, update_call_billing, returned_row, open_billing, bill_duration, bill_total,
  enqueue_billing_event,
}
use voice_mesh.Events.Usage.{
  add_usage_record, project_priced, priced, project_measurements, update_usage_rollup,
}

module _ {N : Type 0} (s : Settings N) where
  -- A bill against the sum of the call's costs; a call without a bill has no costs.
  abbrev pub AddsUp : Option (Billing N) → N → Type 0
  AddsUp none cost = cost ≡ s.numeric.nought
  AddsUp (some b) cost =
      (b.provider_cost_usd ≡ cost)
      × (b.total_cost_usd ≡ s.numeric.plus b.platform_fee_usd b.provider_cost_usd)

  abbrev pub Billed : Database N → String → Type 0
  Billed db c = AddsUp (lookup c db.call_billing) (sum_cost s c db.usage_records)

  sum_cost-snoc :
      (c : String) (u : UsageRecord N) (us : List (UsageRecord N))
      → str_eq u.call_id c ≡ false
      → sum_cost s c (snoc us u) ≡ sum_cost s c us
  unfolding sum_cost
  sum_cost-snoc c u [] h = rw h refl
  sum_cost-snoc c u (x ∷ us) h = ground (arith, sum_cost-snoc c u us)

  -- A step that leaves the bills and the costs of all calls but `c` alone.
  pub record Spares (c : String) (db db' : Database N) : Type 0 where
    bills : db'.call_billing ≡ db.call_billing
    sums :
        (d : String)
        → str_eq c d ≡ false
        → sum_cost s d db'.usage_records ≡ sum_cost s d db.usage_records

  pub refl-Spares : (c : String) (db : Database N) → Spares c db db
  refl-Spares c db = record { bills = refl; sums = λ d h. refl }

  trans-Spares : (c : String) (x y z : Database N) → Spares c x y → Spares c y z → Spares c x z
  trans-Spares c x y z h k = record {
    bills = k.bills ∙ h.bills;
    sums = λ d e. k.sums d e ∙ h.sums d e;
  }

  usage_record_sum :
      (c : String) (u : UsageRecord N) (us : List (UsageRecord N))
      → str_eq u.call_id c ≡ false
      → sum_cost s c (add_usage_record u us) ≡ sum_cost s c us
  unfolding add_usage_record
  usage_record_sum c u us h = ground (arith, sum_cost-snoc c u us)

  rollup_same :
      (c t a u : String) (n : N) (db : Database N)
      → ((update_usage_rollup s c t a u n db).call_billing ≡ db.call_billing)
        × ((update_usage_rollup s c t a u n db).usage_records ≡ db.usage_records)
  unfolding update_usage_rollup
  rollup_same c t a u n db = ground arith

  rollup-Spares :
      (c d t a u : String) (n : N) (x db : Database N)
      → Spares d x db
      → Spares d x (update_usage_rollup s c t a u n db)
  rollup-Spares c d t a u n x db h = record {
    bills = (rollup_same c t a u n db).0 ∙ h.bills;
    sums = λ f e. ap (sum_cost s f) (rollup_same c t a u n db).1 ∙ h.sums f e;
  }

  priced_usage-Spares :
      (e : PipelineEvent N) (provider model : String) (m : Measurement N) (p : Price N)
      (db : Database N)
      → Spares e.call_id db (project_priced s e provider model m p db)
  unfolding project_priced
  priced_usage-Spares e provider model m p db =
      rollup-Spares _ _ _ _ _ _ _ _
        (record { bills = refl; sums = λ d h. usage_record_sum d _ db.usage_records h })

  priced-Spares :
      (e : PipelineEvent N) (provider model : String) (m : Measurement N) (o : Option (Price N))
      (db db' : Database N)
      → priced o (λ price. project_priced s e provider model m price db) ≡ ok db'
      → Spares e.call_id db db'
  unfolding priced
  priced-Spares e provider model m none db db' q = cc
  priced-Spares e provider model m (some p) db db' q =
      subst (Spares e.call_id db) (ok_inj q) (priced_usage-Spares e provider model m p db)

  pub measurements-Spares :
      (e : PipelineEvent N) (provider model : String) (ms : List (Measurement N))
      (db db' : Database N)
      → project_measurements s e provider model ms db ≡ ok db'
      → Spares e.call_id db db'
  unfolding project_measurements
  measurements-Spares e provider model [] db db' q =
      subst (Spares e.call_id db) (ok_inj q) (refl-Spares e.call_id db)
  measurements-Spares e provider model (m ∷ ms) db db' q =
      bind_inv (Spares e.call_id db) (priced (db.pricing_catalog provider model m.usage_type) _) _
        db'
        (λ d h k.
          trans-Spares e.call_id db d db'
            (priced-Spares e provider model m (db.pricing_catalog provider model m.usage_type) db d
              h)
            (measurements-Spares e provider model ms d db' k))
        q

  returned_inv :
      (o : Option (Billing N)) (db db' : Database N) (b : Billing N)
      → returned_row o db ≡ ok (b, db')
      → db' ≡ db
  unfolding returned_row
  returned_inv none db db' b q = cc
  returned_inv (some x) db db' b q = sym (ap (λ (x : Billing N × Database N). x.1) (ok_inj q))

  abbrev known_or : Billing N → Option (Billing N) → Billing N
  known_or v none = v
  known_or v (some w) = w

  lookup-rows :
      (c d : String) (v : Billing N) (f g : Billing N → Billing N) (rows : Dict (Billing N))
      → lookup d (update_row c g (update_row c f (insert_new c v rows)))
        ≡ (if str_eq c d then some (g (f (known_or v (lookup d rows)))) else lookup d rows)
  lookup-rows c d v f g rows = ground (
    arith,
    lookup-update_row c d g (update_row c f (insert_new c v rows)),
    lookup-update_row c d f (insert_new c v rows),
    lookup-insert_new c d v rows,
  )

  total-AddsUp :
      (c : String) (b : Billing N) (us : List (UsageRecord N))
      → AddsUp (some (bill_total s (sum_cost s c us) b)) (sum_cost s c us)
  unfolding bill_total
  total-AddsUp c b us = (refl, refl)

  -- The bill of the call is brought up to date, and those of the others stay.
  pub bill-Billed :
      (c : String) (duration : Option N) (finalized : Bool) (db₀ db db' : Database N)
      (b : Billing N)
      → ((d : String) → Billed db₀ d)
      → Spares c db₀ db
      → update_call_billing s c duration finalized db ≡ ok (b, db')
      → (d : String) → Billed db' d
  unfolding update_call_billing
  bill-Billed c duration finalized db₀ db db' b h k q d =
      let rows₁ = insert_new c (open_billing s) db.call_billing in
      let rows₂ = update_row c (bill_duration s duration finalized) rows₁ in
      let rows₃ = update_row c (bill_total s (sum_cost s c db.usage_records)) rows₂ in
      let same = returned_inv _ _ db' b q in
      subst (λ x. Billed x d) (sym same)
        (subst (λ o. AddsUp o (sum_cost s d db.usage_records))
          (sym (
            lookup-rows c d (open_billing s) (bill_duration s duration finalized)
              (bill_total s (sum_cost s c db.usage_records)) db.call_billing))
          (elim (Bool-cases (str_eq c d)) [
            | inl e ↦ rw (e, sym ((eq_iff c d).0 e)) (total-AddsUp c _ db.usage_records)
            | inr e ↦ rw (e, k.bills, k.sums d e) (h d)
          ]))

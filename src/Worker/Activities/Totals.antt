-- ===== src/Worker/Activities/Totals.antt =====
-- The amounts of a final bill.
use voice_mesh.Prelude.{
  ℕ, ◌+◌, ◌*◌, ◌≤◌, ◌≡◌, ◌↔◌, refl, String, some, none, List, [], ◌∷◌, arith, if◌then◌else◌, str_eq,
}
use voice_mesh.Prelude.Dict.{Dict, lookup, lookup-insert_self}
use voice_mesh.Prelude.Results.{ok}
use voice_mesh.Events.Tables.{UsageRecord, Call}
use voice_mesh.Worker.Activities.{FinalBilling, Store, BillingInput}
use voice_mesh.Worker.Activities.Costs.{
  Component, stt, llm, tts, telephony, component_of, add_cost, component_costs, cents,
  platform_cents, total_cents, call_costs, duration_of, final_row, upsert_final, or_now,
  finalize_call_billing,
}

-- What the usage of a call cost, in 10⁻¹⁰ USD.
abbrev pub usage_cost : String → List (UsageRecord ℕ) → ℕ
usage_cost call_id [] = 0
usage_cost call_id (u ∷ us) =
    let rest = usage_cost call_id us in if str_eq u.call_id call_id then u.cost_usd + rest else rest

-- The parts of a bill add up.
abbrev pub AddsUp : FinalBilling → Type 0
AddsUp b =
    b.total_cost_cents
    ≡ b.platform_cost_cents + b.stt_cost_cents + b.llm_cost_cents + b.tts_cost_cents
      + b.telephony_cost_cents

-- A total in cents that is within two and a half cents of 5 cents a minute and the usage, where
-- everything is taken three times, to be whole.
pub record IsExact (duration cost total : ℕ) : Type 0 where
  pub above : 25000 * duration + 3 * cost ≤ 300000000 * total + 750000000
  pub below : 300000000 * total ≤ 25000 * duration + 3 * cost + 750000000

add_cost-sum :
    (k : Component) (n : ℕ) (call_id : String) (us : List (UsageRecord ℕ))
    → let c = component_costs call_id us in
      let d = add_cost k n c in
      d.stt_cost + d.llm_cost + d.tts_cost + d.telephony_cost
      ≡ n + (c.stt_cost + c.llm_cost + c.tts_cost + c.telephony_cost)
add_cost-sum stt n call_id us = omega arith
add_cost-sum llm n call_id us = omega arith
add_cost-sum tts n call_id us = omega arith
add_cost-sum telephony n call_id us = omega arith

component_costs-sum :
    (call_id : String) (us : List (UsageRecord ℕ))
    → let c = component_costs call_id us in
      c.stt_cost + c.llm_cost + c.tts_cost + c.telephony_cost ≡ usage_cost call_id us
unfolding component_costs
component_costs-sum call_id [] = refl
component_costs-sum call_id (u ∷ us) = ground (
  arith,
  component_costs-sum call_id us,
  add_cost-sum (component_of u.stage u.usage_type) u.cost_usd call_id us,
)

call_costs-IsExact :
    (call_id : String) (duration : ℕ) (us : List (UsageRecord ℕ))
    → IsExact duration (usage_cost call_id us) (total_cents (call_costs call_id duration us))
unfolding call_costs cents platform_cents
call_costs-IsExact call_id duration us = omega (arith, component_costs-sum call_id us)

finalized :
    (i : BillingInput) (now : ℕ) (c : Call) (s : Store)
    → lookup i.call_id s.projected.calls ≡ some c
    → finalize_call_billing i now s
      ≡ ok (
        record s { final_billing = upsert_final i.call_id (final_row i c s) now s.final_billing },
        final_row i c s,
      )
unfolding finalize_call_billing
finalized i now c s h = rw (h, finalize_call_billing)

final_row-AddsUp : (i : BillingInput) (c : Call) (s : Store) → AddsUp (final_row i c s)
unfolding final_row
final_row-AddsUp i c s = refl

final_row-IsExact :
    (i : BillingInput) (c : Call) (s : Store)
    → IsExact
        (duration_of (lookup i.call_id s.projected.call_billing) c)
        (usage_cost i.call_id s.projected.usage_records)
        (final_row i c s).total_cost_cents
unfolding final_row
final_row-IsExact i c s =
    call_costs-IsExact i.call_id (duration_of (lookup i.call_id s.projected.call_billing) c)
      s.projected.usage_records

upsert_final-new :
    (call_id : String) (new : FinalBilling) (now : ℕ) (rows : Dict FinalBilling)
    → lookup call_id rows ≡ none
    → lookup call_id (upsert_final call_id new now rows)
      ≡ some (record new { finalized_at = some now })
unfolding upsert_final
upsert_final-new call_id new now rows h = rw (h, upsert_final) (lookup-insert_self call_id _ rows)

-- For a call that is known and has no final bill yet, `finalize_call_billing` stores one, stamped with
-- the time. Its parts add up, and its total is within two and a half cents of 5 cents a minute for the
-- call's duration and the cost of all the call's usage.
pub finalize_call_billing-IsExact :
    (i : BillingInput) (now : ℕ) (c : Call) (s : Store)
    → lookup i.call_id s.projected.calls ≡ some c
    → lookup i.call_id s.final_billing ≡ none
    → let row = final_row i c s in
      let rows = upsert_final i.call_id row now s.final_billing in
      (finalize_call_billing i now s ≡ ok (record s { final_billing = rows }, row))
      × (lookup i.call_id rows ≡ some (record row { finalized_at = some now }))
      × AddsUp row
      × IsExact
          (duration_of (lookup i.call_id s.projected.call_billing) c)
          (usage_cost i.call_id s.projected.usage_records)
          row.total_cost_cents
finalize_call_billing-IsExact i now c s h k = (
  finalized i now c s h,
  upsert_final-new i.call_id (final_row i c s) now s.final_billing k,
  final_row-AddsUp i c s,
  final_row-IsExact i c s,
)

abbrev updated : FinalBilling → FinalBilling → ℕ → FinalBilling
updated old new now = record old {
  billable_seconds = new.billable_seconds;
  platform_cost_cents = new.platform_cost_cents;
  stt_cost_cents = new.stt_cost_cents;
  llm_cost_cents = new.llm_cost_cents;
  tts_cost_cents = new.tts_cost_cents;
  total_cost_cents = new.total_cost_cents;
  status = new.status;
  warnings = new.warnings;
  finalized_at = or_now old.finalized_at now;
}

-- Where a call has a final bill already, storing one again keeps the telephony cost of the old bill, and
-- its time if it has one. The parts of the stored bill add up exactly if the new telephony cost is the
-- old one.
pub upsert_final-telephony :
    (i : BillingInput) (now : ℕ) (c : Call) (s : Store) (old : FinalBilling)
    → lookup i.call_id s.final_billing ≡ some old
    → let row = final_row i c s in
      (stored : FinalBilling) × (lookup i.call_id (upsert_final i.call_id row now s.final_billing)
        ≡ some stored)
      × (stored.telephony_cost_cents ≡ old.telephony_cost_cents)
      × (stored.finalized_at ≡ or_now old.finalized_at now)
      × (AddsUp stored ↔ (row.telephony_cost_cents ≡ old.telephony_cost_cents))
unfolding upsert_final
upsert_final-telephony i now c s old h =
    let row = final_row i c s in
    let a = final_row-AddsUp i c s in
    rw (h, upsert_final)
      (
        updated old row now,
        lookup-insert_self i.call_id (updated old row now) s.final_billing,
        refl,
        refl,
        (λ e. omega (arith, a, e), λ e. omega (arith, a, e)),
      )

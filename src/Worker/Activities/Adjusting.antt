-- ===== src/Worker/Activities/Adjusting.antt =====
-- apps/worker/activities.py: `create_billing_adjustment`. The hash uuid5 is an argument. The id of a
-- source event is the text of a UUID as uuid prints it, where it is neither absent nor empty.
use Prim.Native.String.{◌++◌}
use voice_mesh.Prelude.{
  ◌≡◌, refl, String, Bool, true, false, ◌&&◌, ◌||◌, Option, none, some, [], ◌∷◌, arith,
  if◌then◌else◌, str_eq, is_text, str_eq_refl, ap, sym, subst,
}
use voice_mesh.Prelude.Int.{sub_ℕ}
use voice_mesh.Prelude.Dict.{Dict, lookup, insert, has_key}
use voice_mesh.Prelude.Results.{Result, ok, err, runtime_error}
use voice_mesh.Events.Tables.{Call}
use voice_mesh.Worker.Activities.{FinalBilling, Adjustment, Store, BillingInput}
use voice_mesh.Worker.Activities.Costs.{call_costs, total_cents, duration_of}

-- A row of the same call and source event; NULL is equal to nothing.
abbrev pub is_of : String → Option String → Adjustment → Bool
is_of call_id none a = false
is_of call_id (some source) a = str_eq a.call_id call_id && is_text source a.source_event_id

unfoldable pub is_adjusted : String → Option String → Dict Adjustment → Bool
is_adjusted call_id source [] = false
is_adjusted call_id source ((k, a) ∷ rows) =
    is_of call_id source a || is_adjusted call_id source rows

abbrev name_of : Option String → String
name_of none = "None"
name_of (some s) = s

unfoldable pub adjustment_name : BillingInput → String
adjustment_name i =
    "voicemesh:billing-adjustment:" ++ (i.call_id ++ (":" ++ name_of i.source_event_id))

-- `UUID(...) if source_event_id else None`
abbrev pub source_event_uuid : Option String → Option String
source_event_uuid none = none
source_event_uuid (some s) = if str_eq s "" then none else some s

unfoldable pub adjustment_of : BillingInput → Call → FinalBilling → Store → Adjustment
adjustment_of i c final s =
    let duration = duration_of (lookup i.call_id s.projected.call_billing) c in
    let recomputed = total_cents (call_costs i.call_id duration s.projected.usage_records) in
    record {
      call_id = i.call_id;
      previous_total_cost_cents = final.total_cost_cents;
      recomputed_total_cost_cents = recomputed;
      delta_cost_cents = sub_ℕ recomputed final.total_cost_cents;
      reason = i.reason;
      source_event_id = source_event_uuid i.source_event_id;
    }

-- The INSERT, which a row of the same call and source event stops, and which a row with the same key
-- lets fail.
unfoldable pub insert_adjustment : String → Adjustment → Dict Adjustment → Result (Dict Adjustment)
unfolding is_adjusted
insert_adjustment key a rows =
    if is_adjusted a.call_id a.source_event_id rows
    then ok rows
    else if has_key key rows
    then err runtime_error
    else ok (insert key a rows)

abbrev pub stored : Store → Adjustment → Result (Dict Adjustment) → Result (Store × Adjustment)
stored s a (err e) = err e
stored s a (ok rows) = ok (record s { adjustments = rows }, a)

abbrev pub adjust_with :
    (String → String)
    → BillingInput
    → Option Call
    → Option FinalBilling
    → Store
    → Result (Store × Adjustment)
adjust_with uuid5 i none f s = err runtime_error
adjust_with uuid5 i (some c) none s = err runtime_error
adjust_with uuid5 i (some c) (some final) s =
    let a = adjustment_of i c final s in
    stored s a (insert_adjustment (uuid5 (adjustment_name i)) a s.adjustments)

unfoldable pub create_billing_adjustment :
    (String → String) → BillingInput → Store → Result (Store × Adjustment)
unfolding adjustment_of insert_adjustment adjustment_name
create_billing_adjustment uuid5 i s =
    adjust_with uuid5 i (lookup i.call_id s.projected.calls) (lookup i.call_id s.final_billing) s

is_adjusted-insert :
    (call_id source key : String) (a : Adjustment) (rows : Dict Adjustment)
    → is_of call_id (some source) a ≡ true
    → is_adjusted call_id (some source) (insert key a rows) ≡ true
unfolding is_adjusted insert
is_adjusted-insert call_id source key a [] h = ground arith
is_adjusted-insert call_id source key a ((k, b) ∷ rows) h =
    ground (arith, is_adjusted-insert call_id source key a rows)

insert_adjustment_again :
    (key source : String) (a : Adjustment) (rows rows' : Dict Adjustment)
    → a.source_event_id ≡ some source
    → insert_adjustment key a rows ≡ ok rows'
    → insert_adjustment key a rows' ≡ ok rows'
unfolding insert_adjustment
insert_adjustment_again key source a rows rows' e h = ground (
  arith,
  e,
  h,
  is_adjusted-insert a.call_id source key a rows,
  str_eq_refl a.call_id,
  str_eq_refl source,
)

stored_rows :
    (s s' : Store) (a b : Adjustment) (res : Result (Dict Adjustment))
    → stored s b res ≡ ok (s', a)
    → (rows : Dict Adjustment) × (res ≡ ok rows) × (s' ≡ record s { adjustments = rows }) × (b ≡ a)
stored_rows s s' a b (err e) h = cc
stored_rows s s' a b (ok rows) h = (rows, refl, cc, cc)

-- After a success the store differs in its adjustments only, and the same call succeeds there again.
adjusted_again :
    (uuid5 : String → String) (i : BillingInput) (source : String) (s s' : Store) (a : Adjustment)
    (oc : Option Call) (of : Option FinalBilling)
    → source_event_uuid i.source_event_id ≡ some source
    → adjust_with uuid5 i oc of s ≡ ok (s', a)
    → (rows : Dict Adjustment) × (s' ≡ record s { adjustments = rows })
      × (adjust_with uuid5 i oc of (record s { adjustments = rows })
          ≡ ok (record s { adjustments = rows }, a))
unfolding adjustment_of
adjusted_again uuid5 i source s s' a none of e h = cc
adjusted_again uuid5 i source s s' a (some c) none e h = cc
adjusted_again uuid5 i source s s' a (some c) (some final) e h =
    let b = adjustment_of i c final s in
    let key = uuid5 (adjustment_name i) in
    let (rows, q, es, ea) = stored_rows s s' a b (insert_adjustment key b s.adjustments) h in
    (
      rows,
      es,
      rw (insert_adjustment_again key source b s.adjustments rows e q)
          (ap (λ x. ok (record s { adjustments = rows }, x)) ea),
    )

-- An adjustment for a source event is made once: where `create_billing_adjustment` succeeds for a source
-- event, it succeeds again on the tables that it left, with the same reply, and leaves them as they are.
pub create_billing_adjustment_once :
    (uuid5 : String → String) (i : BillingInput) (source : String) (s s' : Store) (a : Adjustment)
    → source_event_uuid i.source_event_id ≡ some source
    → create_billing_adjustment uuid5 i s ≡ ok (s', a)
    → create_billing_adjustment uuid5 i s' ≡ ok (s', a)
unfolding create_billing_adjustment
create_billing_adjustment_once uuid5 i source s s' a e h =
    let (rows, es, again) =
      adjusted_again uuid5 i source s s' a (lookup i.call_id s.projected.calls)
        (lookup i.call_id s.final_billing) e h in
    subst
      (λ t.
        adjust_with uuid5 i (lookup i.call_id t.projected.calls) (lookup i.call_id t.final_billing)
          t
        ≡ ok (t, a))
      (sym es) again

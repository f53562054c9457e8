-- ===== src/Worker/Webhook/Delivered.antt =====
-- How often the delivery is started, and what the store is told at the end.
use voice_mesh.Prelude.{
  ℕ, zero, suc, length, ◌+◌, ◌*◌, ◌≤◌, ◌≡◌, refl, ◌⊎◌, ap, Bool, true, false, Option, none, some,
  List, [], ◌∷◌, or_text, arith, if◌then◌else◌, ◌==◌,
}
use voice_mesh.Prelude.Traces.{run}
use voice_mesh.Worker.Flow.{
  returned, World, ◌>>=◌, ◌>>◌, pure, gets, modify, execute, deliver, sleep, start, head_signals,
}
use voice_mesh.Worker.Flow.Rules.{continue_post}
use voice_mesh.Worker.Webhook.{
  WebhookState, requested, delivered, failed, delivering, WebhookDelivery, Activity,
  persist_webhook_delivery, deliver_webhook, timer, Reply, Returned, WebhookRun, init, no_signal,
  give_up, succeed, back_off, deliver_from, run_workflow,
}

-- The activities `deliver_webhook` that were started; how often Temporal tried them, where the k-th
-- activity was tried `tries k` times; and the latest state that the store was told.
abbrev pub deliveries : List Activity → ℕ
deliveries [] = 0
deliveries (deliver_webhook n ∷ cs) = suc (deliveries cs)
deliveries (_ ∷ cs) = deliveries cs

abbrev pub delivery_tries : (ℕ → ℕ) → List Activity → ℕ
delivery_tries tries [] = 0
delivery_tries tries (deliver_webhook n ∷ cs) = tries (length cs) + delivery_tries tries cs
delivery_tries tries (_ ∷ cs) = delivery_tries tries cs

delivery_tries_bound :
    (tries : ℕ → ℕ) (cs : List Activity)
    → ((k : ℕ) → 1 ≤ tries k)
    → deliveries cs ≤ delivery_tries tries cs
delivery_tries_bound tries [] h = omega arith
delivery_tries_bound tries (deliver_webhook n ∷ cs) h =
    omega (arith, h (length cs), delivery_tries_bound tries cs h)
delivery_tries_bound tries (persist_webhook_delivery s n e ∷ cs) h = delivery_tries_bound tries cs h
delivery_tries_bound tries (timer n ∷ cs) h = delivery_tries_bound tries cs h

abbrev pub last_status : List Activity → Option WebhookState
last_status [] = none
last_status (persist_webhook_delivery s n e ∷ cs) = some s
last_status (_ ∷ cs) = last_status cs

-- The run started as many deliveries as it reports, at most `most`, gave up only after `most` of them,
-- and the store knows the outcome.
pub record Reports (most : ℕ) (v : Returned) (r : WebhookRun) : Type 0 where
  pub counted : v.attempts ≡ deliveries r.calls
  pub bounded : v.attempts ≤ most
  pub settled : (v.state ≡ delivered) ⊎ ((v.state ≡ failed) × (v.attempts ≡ most))
  pub told : last_status r.calls ≡ some v.state

-- `k` deliveries were started.
record Made (k : ℕ) (r : WebhookRun) : Type 0 where
  calls_made : deliveries r.calls ≡ k
  field_made : r.fields.attempt_count ≡ k

unmoved : (s : WebhookDelivery) (es : List ⊥) → run no_signal s es ≡ s
unmoved s [] = refl
unmoved s (e ∷ es) = unmoved s es

module _ (w : World ⊥ Activity Reply) where
  give_up-Reports :
      (most : ℕ) (r : WebhookRun) (v : Returned)
      → Made most r
      → (give_up w r).0 ≡ returned v
      → Reports most v (give_up w r).1
  unfolding give_up ◌>>=◌ gets modify execute deliver
  give_up-Reports most r v m q =
      ground (arith, unmoved (record r.fields { state = failed }) (head_signals r.coming))

  succeed-Reports :
      (most attempt : ℕ) (r : WebhookRun) (v : Returned)
      → attempt ≤ most
      → Made attempt r
      → (succeed w attempt r).0 ≡ returned v
      → Reports most v (succeed w attempt r).1
  unfolding succeed ◌>>=◌ gets modify execute deliver
  succeed-Reports most attempt r v h m q =
      ground (arith, unmoved (record r.fields { state = delivered }) (head_signals r.coming))

  back_off-Made : (k seconds : ℕ) (r : WebhookRun) → Made k r → Made k (back_off w seconds r).1
  unfolding back_off pure sleep deliver
  back_off-Made k seconds r m = ground (arith, unmoved r.fields (head_signals r.coming))

  asked-Made :
      (k : ℕ) (r : WebhookRun)
      → deliveries r.calls ≡ k
      → r.fields.attempt_count ≡ suc k
      → Made (suc k) (execute w no_signal (deliver_webhook (suc k)) r).1
  unfolding execute deliver
  asked-Made k r h m = ground (arith, unmoved r.fields (head_signals r.coming))

  deliver_from-Reports :
      (most backoff left k : ℕ) (r : WebhookRun) (v : Returned)
      → k + left ≡ most
      → Made k r
      → (deliver_from w backoff left (suc k) r).0 ≡ returned v
      → Reports most v (deliver_from w backoff left (suc k) r).1
  unfolding deliver_from ◌>>=◌ modify
  deliver_from-Reports most backoff zero k r v h m q =
      give_up-Reports most r v
        (record {
          calls_made = omega (arith, h, m.calls_made);
          field_made = omega (arith, h, m.field_made);
        })
        q
  deliver_from-Reports most backoff (suc left) k r v h m q =
      let r₁ : WebhookRun = record r {
        fields = record r.fields { state = delivering; attempt_count = suc k };
      } in
      let (o, r₂) = execute w no_signal (deliver_webhook (suc k)) r₁ in
      continue_post (Reports most v) o _ r₂ v
        (λ result _ q'.
          answered result result.success r₂
            (λ r'. deliver_from-Reports most backoff left (suc k) r' v (omega (arith, h)))
            (asked-Made k r₁ m.calls_made refl) q')
        q
    where
      answered :
          (result : Reply) (b : Bool) (r₂ : WebhookRun)
          → ((r' : WebhookRun)
              → Made (suc k) r'
              → (deliver_from w backoff left (suc (suc k)) r').0 ≡ returned v
              → Reports most v (deliver_from w backoff left (suc (suc k)) r').1)
          → Made (suc k) r₂
          → ((if b then succeed w (suc k) else (do
            modify (λ s. record s { last_error = some (or_text result.error "webhook failed") })
            back_off w (if backoff == 0 then 0 else backoff * suc k)
            deliver_from w backoff left (suc (suc k))))
              r₂).0
            ≡ returned v
          → Reports most v
              ((if b then succeed w (suc k) else (do
                modify (λ s. record s { last_error = some (or_text result.error "webhook failed") })
                back_off w (if backoff == 0 then 0 else backoff * suc k)
                deliver_from w backoff left (suc (suc k))))
                r₂).1
      answered result true r₂ ih m' q' = succeed-Reports most (suc k) r₂ v (omega (arith, h)) m' q'
      answered result false r₂ ih m' q' =
          let seconds = if backoff == 0 then 0 else backoff * suc k in
          let r₃ : WebhookRun = record r₂ {
            fields = record r₂.fields { last_error = some (or_text result.error "webhook failed") };
          } in
          let (o, r₄) = back_off w seconds r₃ in
          continue_post (Reports most v) o _ r₄ v
            (λ _ _ q''.
              ih r₄
                (back_off-Made (suc k) seconds r₃
                  (record { calls_made = m'.calls_made; field_made = m'.field_made }))
                q'')
            q'

  workflow-Reports :
      (max_attempts backoff : ℕ) (v : Returned)
      → (run_workflow w max_attempts backoff (start w init)).0 ≡ returned v
      → Reports max_attempts v (run_workflow w max_attempts backoff (start w init)).1
  unfolding run_workflow ◌>>=◌ gets execute deliver start init
  workflow-Reports most backoff v q =
      let r = start w init in
      let (o, r') = execute w no_signal (persist_webhook_delivery requested none none) r in
      continue_post (Reports most v) o _ r' v
        (λ _ _ q'.
          deliver_from-Reports most backoff most 0 r' v (omega arith)
            (record {
              calls_made = refl;
              field_made =
                  ap (λ (s : WebhookDelivery). s.attempt_count)
                    (unmoved init (head_signals w.script));
            })
            q')
        q

  -- If the delivery workflow returns, its number of attempts is the number of activities
  -- `deliver_webhook` that it started, and at most `max_attempts`; it reports DELIVERED, or FAILED after
  -- it started exactly `max_attempts` of them; and that state is the one that the store was told last.
  -- Where Temporal tries each activity at least once, it tried the delivery no less often than that.
  pub run_workflow-Reports :
      (max_attempts backoff : ℕ) (v : Returned) (tries : ℕ → ℕ)
      → ((k : ℕ) → 1 ≤ tries k)
      → (run_workflow w max_attempts backoff (start w init)).0 ≡ returned v
      → let r = (run_workflow w max_attempts backoff (start w init)).1 in
        Reports max_attempts v r × (v.attempts ≤ delivery_tries tries r.calls)
  run_workflow-Reports max_attempts backoff v tries h q =
      let r = (run_workflow w max_attempts backoff (start w init)).1 in
      let reports = workflow-Reports max_attempts backoff v q in
      (reports, omega (arith, reports.counted, delivery_tries_bound tries r.calls h))

-- ===== src/Webhooks/Delivery/ByHand.antt =====
-- Deliveries that are tried again by hand.
use mathlib.Core.Path.{subst}
use stackaura_checkout_api.Base.{
  ℕ, ◌≤◌, String, true, false, Option, List, [], ◌∷◌, ◌≡◌, refl, ◌∙◌, ◌+◌, arith, Bool-cases, inl,
  inr, ◌==◌, string_eq, All, update_where, sym, count_if, ltb, ◌&&◌, ◌-◌,
}
use stackaura_checkout_api.Webhooks.Delivery.{
  WebhookDelivery, Settings, max_attempts, is_due, is_pending, batch_size, reset_delivery,
  retry_webhook_delivery,
}
use text.Mathlib.TextEquality.{eq_iff}
use stackaura_checkout_api.Base.Result.{Result, ok, err, of_ok, ◌>>◌}
use stackaura_checkout_api.Base.Text.{trim}
use stackaura_checkout_api.Webhooks.Delivery.Laws.{still_pending, is_due_of_reached, attempt-id}
use stackaura_checkout_api.Webhooks.Delivery.Runs.{
  Run, attempt, attempt_batch, order_rows, process_pending_deliveries,
}
use stackaura_checkout_api.Webhooks.Delivery.Runs.Laws.{
  order_rows-All, order_rows-count, attempt_batch_taken, attempt_batch_passed,
}

then_inv :
    (m : Result (Unit {0})) (k : Result (List WebhookDelivery)) {rows : List WebhookDelivery}
    → (m >> k) ≡ ok rows
    → k ≡ ok rows
then_inv (ok u) k h = h
then_inv (err e) k h = absurd (cc)

module _ (jitter : ℕ → ℕ) (format : ℕ → Option String → String) (settings : Settings) where
  -- A delivery with the id is pending, has reached its time, and is within one attempt of the
  -- maximum.
  abbrev IsLast : ℕ → String → WebhookDelivery → Type 0
  IsLast now id d = d.id ≡ id → (is_due now d ≡ true) × (max_attempts settings ≤ d.attempts + 1)

  abbrev IsSettled : String → WebhookDelivery → Type 0
  IsSettled id d = d.id ≡ id → is_pending d.status ≡ false

  reset-IsLast :
      (now later : ℕ) (id : String) (rows : List WebhookDelivery)
      → now ≤ later
      → All (λ d. d.id ≡ id → max_attempts settings ≤ d.attempts + 1) rows
      → All
          (IsLast later id)
          (update_where (λ (d : WebhookDelivery). d.id == id) (reset_delivery now) rows)
  reset-IsLast now later id [] h spent = tt
  reset-IsLast now later id (d ∷ ds) h (s, ss) = elim (Bool-cases (d.id == id)) [
    | inl t ↦
        let due =
          is_due_of_reached jitter format settings later (reset_delivery now d) refl
            (ground (arith, h)) in
        rw t ((λ e. (due, s e)), reset-IsLast now later id ds h ss)
    | inr n ↦ rw n (
      (λ e. let bad : true ≡ false = sym ((eq_iff d.id id).1 e) ∙ n in absurd (cc)),
      reset-IsLast now later id ds h ss,
    )
  ]

  attempt-IsSettled :
      (run : Run) (id : String) (d : WebhookDelivery)
      → IsLast run.now id d
      → IsSettled id (attempt jitter format settings run d)
  attempt-IsSettled run id d last named =
      let at = run.attempted_at d.id in
      let active = run.endpoint_active d.id in
      let response = run.response d.id in
      let next = attempt jitter format settings run d in
      let (_, spent) =
        last (sym (attempt-id jitter format settings at active response d) ∙ named) in
      elim (Bool-cases (is_pending next.status)) [
        | inl y ↦
            let (_, few) = still_pending jitter format settings at active response d y in
            absurd (omega arith)
        | inr n ↦ n
      ]

  -- With room for all deliveries that are due, a run settles those.
  attempt_batch-IsSettled :
      (run : Run) (id : String) (take : ℕ) (ds : List WebhookDelivery)
      → count_if (is_due run.now) ds ≤ take
      → All (IsLast run.now id) ds
      → All (IsSettled id) (attempt_batch jitter format settings run take ds)
  attempt_batch-IsSettled run id take [] room h = tt
  attempt_batch-IsSettled run id take (d ∷ ds) room (h, hs) = elim (Bool-cases (is_due run.now d)) [
    | inl t ↦
        let one : count_if (is_due run.now) (d ∷ ds) ≡ 1 + count_if (is_due run.now) ds =
          rw t refl in
        let some_room : ltb 0 take ≡ true = ground arith in
        let taken : (is_due run.now d && ltb 0 take) ≡ true = rw (t, some_room) refl in
        subst (All (IsSettled id))
          (sym (attempt_batch_taken jitter format settings run take d ds taken))
          (
            attempt-IsSettled run id d h,
            attempt_batch-IsSettled run id (take - 1) ds (omega arith) hs,
          )
    | inr f ↦
        let zero_more : count_if (is_due run.now) (d ∷ ds) ≡ count_if (is_due run.now) ds =
          rw f (omega arith) in
        let passed : (is_due run.now d && ltb 0 take) ≡ false = rw f refl in
        subst (All (IsSettled id))
          (sym (attempt_batch_passed jitter format settings run take d ds passed))
          (
            (λ e. let bad : true ≡ false = sym (h e).0 ∙ f in absurd (cc)),
            attempt_batch-IsSettled run id take ds (omega arith) hs,
          )
  ]

  -- A retry by hand of a delivery that is within one attempt of the maximum, or past it, is worth
  -- one attempt: the next run, if it finds no other in progress and takes at least as many
  -- deliveries as are due in the rows that the retry leaves, settles every delivery with the id,
  -- whatever its endpoint answers.
  pub retry_webhook_delivery-once :
      (owner : String → Option String) (now : ℕ) (delivery_id merchant_id : String)
      (rows rows' : List WebhookDelivery) (run : Run)
      → retry_webhook_delivery owner now delivery_id merchant_id rows ≡ ok rows'
      → now ≤ run.now
      → run.delivery_worker_running ≡ false
      → count_if (is_due run.now) rows' ≤ batch_size settings run.limit
      → All (λ d. d.id ≡ trim delivery_id → max_attempts settings ≤ d.attempts + 1) rows
      → All
          (λ d. d.id ≡ trim delivery_id → is_pending d.status ≡ false)
          (process_pending_deliveries jitter format settings run rows')
  unfolding retry_webhook_delivery process_pending_deliveries
  retry_webhook_delivery-once owner now delivery_id merchant_id rows rows' run h later free room
        spent =
      let id = trim delivery_id in
      let reset = update_where (λ (d : WebhookDelivery). d.id == id) (reset_delivery now) rows in
      let written : ok reset ≡ ok rows' = then_inv _ (ok reset) h in
      let same : reset ≡ rows' = of_ok written in
      let last =
        subst (All (IsLast run.now id)) same (reset-IsLast now run.now id rows later spent) in
      rw free (
        attempt_batch-IsSettled run id (batch_size settings run.limit) (order_rows rows')
          (subst (λ n. n ≤ batch_size settings run.limit)
            (sym (order_rows-count (is_due run.now) rows')) room)
          (order_rows-All (IsLast run.now id) rows' last))

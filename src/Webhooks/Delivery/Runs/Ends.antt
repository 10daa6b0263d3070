-- ===== src/Webhooks/Delivery/Runs/Ends.antt =====
-- Retrying ends, although a run takes at most its limit of deliveries.
use mathlib.Core.Path.{subst}
use stackaura_checkout_api.Base.{
  sym, ℕ, ◌<◌, ◌≤◌, String, true, false, Option, List, [], ◌∷◌, ◌≡◌, refl, ◌+◌, ◌-◌, ◌&&◌, ltb, max,
  arith, Bool-cases, inl, inr, ◌⊎◌, length, All, if◌then◌else◌,
}
use stackaura_checkout_api.Webhooks.Delivery.{
  WebhookDelivery, Settings, is_due, is_pending, reached, batch_size, max_attempts,
}
use stackaura_checkout_api.Webhooks.Delivery.Laws.{is_due_of_reached, still_pending}
use stackaura_checkout_api.Webhooks.Delivery.Runs.{
  Run, in_order, insert, order_rows, attempt, attempt_batch, process_pending_deliveries,
}
use stackaura_checkout_api.Webhooks.Delivery.Runs.Laws.{
  order_rows-All, both_true, attempt_batch_taken, attempt_batch_passed, process_all,
}

module _ (jitter : ℕ → ℕ) (format : ℕ → Option String → String) (settings : Settings) where
  -- The attempts that are left to a delivery: one at least while it is pending.
  abbrev pub left : WebhookDelivery → ℕ
  left d = if is_pending d.status then max 1 (max_attempts settings - d.attempts) else 0

  abbrev pub left_in_all : List WebhookDelivery → ℕ
  left_in_all [] = 0
  left_in_all (d ∷ ds) = left d + left_in_all ds

  insert-left :
      (d : WebhookDelivery) (ds : List WebhookDelivery)
      → left_in_all (insert d ds) ≡ left d + left_in_all ds
  insert-left d [] = refl
  insert-left d (e ∷ es) = elim (Bool-cases (in_order d e)) [
    | inl t ↦ rw t refl
    | inr f ↦ rw f (omega (arith, insert-left d es))
  ]

  order_rows-left : (ds : List WebhookDelivery) → left_in_all (order_rows ds) ≡ left_in_all ds
  order_rows-left [] = refl
  order_rows-left (d ∷ ds) = omega (arith, insert-left d (order_rows ds), order_rows-left ds)

  due-is_pending :
      (now : ℕ) (d : WebhookDelivery) → is_due now d ≡ true → is_pending d.status ≡ true
  unfolding is_due
  due-is_pending now d h = (both_true (is_pending d.status) (reached now d.next_attempt_at) h).0

  -- An attempt uses up one of them.
  attempt-left :
      (run : Run) (d : WebhookDelivery)
      → is_due run.now d ≡ true
      → left (attempt jitter format settings run d) + 1 ≤ left d
  attempt-left run d due =
      let next = attempt jitter format settings run d in
      let p = due-is_pending run.now d due in
      elim (Bool-cases (is_pending next.status)) [
        | inl z ↦
            let (count, few) =
              still_pending jitter format settings (run.attempted_at d.id)
                (run.endpoint_active d.id) (run.response d.id) d z in
            rw (p, z) (omega arith)
        | inr n ↦ rw (p, n) (omega arith)
      ]

  attempt_batch-left :
      (run : Run) (take : ℕ) (ds : List WebhookDelivery)
      → left_in_all (attempt_batch jitter format settings run take ds) ≤ left_in_all ds
  attempt_batch-left run take [] = omega arith
  attempt_batch-left run take (d ∷ ds) = elim (Bool-cases (is_due run.now d && ltb 0 take)) [
    | inl t ↦
        let less = attempt-left run d (both_true (is_due run.now d) (ltb 0 take) t).0 in
        let rest = attempt_batch-left run (take - 1) ds in
        subst (λ es. left_in_all es ≤ left_in_all (d ∷ ds))
          (sym (attempt_batch_taken jitter format settings run take d ds t)) (omega arith)
    | inr f ↦
        let rest = attempt_batch-left run take ds in
        subst (λ es. left_in_all es ≤ left_in_all (d ∷ ds))
          (sym (attempt_batch_passed jitter format settings run take d ds f)) (omega arith)
  ]

  -- All the deliveries that are pending have reached their time of retry.
  abbrev pub IsReached : ℕ → WebhookDelivery → Type 0
  IsReached now d = is_pending d.status ≡ true → reached now d.next_attempt_at ≡ true

  not_due :
      (run : Run) (take : ℕ) (d : WebhookDelivery)
      → is_pending d.status ≡ false
      → (is_due run.now d && ltb 0 take) ≡ false
  unfolding is_due
  not_due run take d n = rw n refl

  -- Unless nothing is left, a run that may attempt something uses up an attempt.
  abbrev IsProgress : List WebhookDelivery → List WebhookDelivery → Type 0
  IsProgress before after = (left_in_all before ≡ 0) ⊎ (left_in_all after + 1 ≤ left_in_all before)

  attempt_batch-IsProgress :
      (run : Run) (take : ℕ) (ds : List WebhookDelivery)
      → 0 < take
      → All (IsReached run.now) ds
      → IsProgress ds (attempt_batch jitter format settings run take ds)
  attempt_batch-IsProgress run take [] some_room h = inl refl
  attempt_batch-IsProgress run take (d ∷ ds) some_room (h, hs) =
      elim (Bool-cases (is_pending d.status)) [
        | inl p ↦
            let due = is_due_of_reached jitter format settings run.now d p (h p) in
            let room : ltb 0 take ≡ true = ground arith in
            let t : (is_due run.now d && ltb 0 take) ≡ true = rw (due, room) refl in
            let less = attempt-left run d due in
            let rest = attempt_batch-left run (take - 1) ds in
            subst (IsProgress (d ∷ ds))
              (sym (attempt_batch_taken jitter format settings run take d ds t)) (inr (omega arith))
        | inr n ↦
            let f : (is_due run.now d && ltb 0 take) ≡ false = not_due run take d n in
            let spent : left d ≡ 0 = rw n refl in
            subst (IsProgress (d ∷ ds))
              (sym (attempt_batch_passed jitter format settings run take d ds f))
              (elim (attempt_batch-IsProgress run take ds some_room hs) [
                | inl z ↦ inl (omega arith)
                | inr less ↦ inr (omega arith)
              ])
      ]

  process-IsProgress :
      (run : Run) (rows : List WebhookDelivery)
      → run.delivery_worker_running ≡ false
      → All (IsReached run.now) rows
      → IsProgress rows (process_pending_deliveries jitter format settings run rows)
  unfolding process_pending_deliveries
  process-IsProgress run rows free h =
      let size = batch_size settings run.limit in
      let room : 0 < size = omega arith in
      let same = order_rows-left rows in
      let ordered = order_rows-All (IsReached run.now) rows h in
      rw free (elim (attempt_batch-IsProgress run size (order_rows rows) room ordered) [
        | inl z ↦ inl (omega arith)
        | inr less ↦ inr (omega arith)
      ])

  process-left :
      (run : Run) (rows : List WebhookDelivery)
      → left_in_all (process_pending_deliveries jitter format settings run rows) ≤ left_in_all rows
  unfolding process_pending_deliveries
  process-left run rows = elim (Bool-cases run.delivery_worker_running) [
    | inl t ↦ rw t (omega arith)
    | inr f ↦
        let size = batch_size settings run.limit in
        let same = order_rows-left rows in
        let less = attempt_batch-left run size (order_rows rows) in rw f (omega arith)
  ]

  nothing_left :
      (rows : List WebhookDelivery)
      → left_in_all rows ≡ 0
      → All (λ d. is_pending d.status ≡ false) rows
  nothing_left [] h = tt
  nothing_left (d ∷ ds) h = elim (Bool-cases (is_pending d.status)) [
    | inl p ↦
        let some_left : left d ≡ max 1 (max_attempts settings - d.attempts) = rw p refl in
        absurd (omega arith)
    | inr n ↦ (n, nothing_left ds (omega arith))
  ]

  -- No run finds another in progress, and each comes when the pending deliveries have reached their
  -- times of retry.
  abbrev pub AllReached : List Run → List WebhookDelivery → Type 0
  AllReached [] rows = Unit
  AllReached (run ∷ runs) rows =
      (run.delivery_worker_running ≡ false)
      × All (IsReached run.now) rows
      × AllReached runs (process_pending_deliveries jitter format settings run rows)

  -- Retrying ends: after as many runs as attempts are left to all deliveries (to a pending one, what
  -- it lacks to the maximum, and at least one), no delivery is pending, whatever the endpoints
  -- answer and however small the batches are, if no run finds another in progress and each comes
  -- when every pending delivery has reached its time of retry.
  pub process_all-ends :
      (runs : List Run) (rows : List WebhookDelivery)
      → AllReached runs rows
      → left_in_all rows ≤ length runs
      → All (λ d. is_pending d.status ≡ false) (process_all jitter format settings runs rows)
  process_all-ends [] rows a enough = nothing_left rows (omega arith)
  process_all-ends (run ∷ runs) rows (free, now_reached, a) enough =
      let fewer = process-left run rows in
      process_all-ends runs (process_pending_deliveries jitter format settings run rows) a
        (elim (process-IsProgress run rows free now_reached) [
          | inl z ↦ omega arith
          | inr less ↦ omega arith
        ])

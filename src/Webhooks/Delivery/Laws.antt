-- ===== src/Webhooks/Delivery/Laws.antt =====
-- Retries: when a delivery is tried again, how often, and how long it waits.
use stackaura_checkout_api.Base.{
  ℕ, ◌<◌, ◌≤◌, String, Bool, true, false, Option, none, some, ◌≡◌, ◌↔◌, refl, ◌+◌, ◌*◌, max, arith,
  Bool-cases, inl, inr, string_eq,
}
use stackaura_checkout_api.Webhooks.Delivery.{
  DeliveryStatus, pending, WebhookDelivery, Settings, Response, thrown, responded, is_ok,
  is_client_error, max_attempts, max_delay_ms, exponential_delay, next_retry_at, should_retry,
  handle_delivery_failure, attempt_webhook_delivery, is_due, is_pending, reached,
}

-- The endpoint neither accepted the delivery nor answered with a client error.
abbrev pub MayRetry : Response → Type 0
MayRetry (thrown error) = Unit
MayRetry (responded code snippet) = (is_ok code ≡ false) × (is_client_error (some code) ≡ false)

-- How a delivery stands with respect to its time of retry.
abbrev pub IsScheduled : Settings → WebhookDelivery → Type 0
IsScheduled settings d =
    (d.status ≡ pending → d.attempts < max 1 (max_attempts settings))
    × (d.attempts ≤ max 1 (max_attempts settings))

is_pending_inv : (s : DeliveryStatus) → is_pending s ≡ true → s ≡ pending
is_pending_inv s h = ground arith

module _ (jitter : ℕ → ℕ) (format : ℕ → Option String → String) (settings : Settings) where
  -- After an attempt a delivery is pending exactly if its endpoint is active, the endpoint neither
  -- accepted it nor answered with a client error (4xx), and the attempts made are still fewer than
  -- the maximum.
  pub attempt-pending_iff :
      (now : ℕ) (active : Bool) (response : Response) (d : WebhookDelivery)
      → ((attempt_webhook_delivery jitter format settings now active response d).status ≡ pending)
        ↔ ((active ≡ true) × MayRetry response × (d.attempts + 1 < max_attempts settings))
  unfolding attempt_webhook_delivery
  attempt-pending_iff now false response d = ground arith
  attempt-pending_iff now true (thrown error) d = ground arith
  attempt-pending_iff now true (responded code snippet) d = ground arith

  next_retry_at-bounds :
      (now attempt_number : ℕ)
      → ((n : ℕ) → 5 * jitter n ≤ n)
      → (now ≤ next_retry_at jitter settings now attempt_number)
        × (5 * next_retry_at jitter settings now attempt_number
            ≤ 5 * now + 6 * max_delay_ms settings)
  unfolding next_retry_at
  next_retry_at-bounds now attempt_number j =
      let delay = exponential_delay settings attempt_number in
      let below : delay ≤ max_delay_ms settings = omega arith in
      (omega arith, omega (arith, j delay, below))

  failure-retry_at :
      (now t attempt_number : ℕ) (code : Option ℕ) (error : String) (d : WebhookDelivery)
      → (handle_delivery_failure jitter settings now attempt_number code error d).next_attempt_at
        ≡ some t
      → next_retry_at jitter settings now attempt_number ≡ t
  unfolding handle_delivery_failure
  failure-retry_at now t attempt_number code error d h =
      elim (Bool-cases (should_retry settings attempt_number code)) [
        | inl y ↦
            let e : some (next_retry_at jitter settings now attempt_number) ≡ some t = rw y at h in
            cc
        | inr n ↦ let bad : none ≡ some t = rw n at h in absurd (cc)
      ]

  attempt-retry_at :
      (now t : ℕ) (response : Response) (d : WebhookDelivery)
      → (attempt_webhook_delivery jitter format settings now true response d).next_attempt_at
        ≡ some t
      → next_retry_at jitter settings now (d.attempts + 1) ≡ t
  unfolding attempt_webhook_delivery
  attempt-retry_at now t (thrown error) d h = failure-retry_at now t (d.attempts + 1) none error d h
  attempt-retry_at now t (responded code snippet) d h = elim (Bool-cases (is_ok code)) [
    | inl y ↦ let bad : none ≡ some t = rw y at h in absurd (cc)
    | inr n ↦
        failure-retry_at now t (d.attempts + 1) (some code) (format code snippet) d (rw n at h)
  ]

  -- A retry that an attempt at an active endpoint schedules is never before the attempt, and at
  -- most the maximal delay and the jitter of a delay within it after it.
  pub attempt-delay :
      (now t : ℕ) (response : Response) (d : WebhookDelivery)
      → ((n : ℕ) → 5 * jitter n ≤ n)
      → (attempt_webhook_delivery jitter format settings now true response d).next_attempt_at
        ≡ some t
      → (now ≤ t) × (5 * t ≤ 5 * now + 6 * max_delay_ms settings)
  attempt-delay now t response d j h =
      rw (← attempt-retry_at now t response d h) (next_retry_at-bounds now (d.attempts + 1) j)

  attempt-attempts :
      (now : ℕ) (active : Bool) (response : Response) (d : WebhookDelivery)
      → (attempt_webhook_delivery jitter format settings now active response d).attempts
        ≤ d.attempts + 1
  unfolding attempt_webhook_delivery handle_delivery_failure
  attempt-attempts now false response d = ground arith
  attempt-attempts now true (thrown error) d = ground arith
  attempt-attempts now true (responded code snippet) d = ground arith

  pending-attempts :
      (now : ℕ) (active : Bool) (response : Response) (d : WebhookDelivery)
      → (attempt_webhook_delivery jitter format settings now active response d).status ≡ pending
      → (attempt_webhook_delivery jitter format settings now active response d).attempts
        ≡ d.attempts + 1
  unfolding attempt_webhook_delivery handle_delivery_failure
  pending-attempts now false response d h = ground arith
  pending-attempts now true (thrown error) d h = ground arith
  pending-attempts now true (responded code snippet) d h = ground arith

  due-pending : (now : ℕ) (d : WebhookDelivery) → is_due now d ≡ true → d.status ≡ pending
  unfolding is_due
  due-pending now d h = ground arith

  pub attempt-IsScheduled :
      (now at : ℕ) (active : Bool) (response : Response) (d : WebhookDelivery)
      → is_due now d ≡ true
      → IsScheduled settings d
      → IsScheduled settings (attempt_webhook_delivery jitter format settings at active response d)
  attempt-IsScheduled now at active response d due (below, bound) =
      let next = attempt_webhook_delivery jitter format settings at active response d in
      let first = below (due-pending now d due) in
      let count = attempt-attempts at active response d in
      (
        (λ (h : next.status ≡ pending).
            let (_, _, few) = (attempt-pending_iff at active response d).0 h in
            let exact = pending-attempts at active response d h in omega arith),
        omega arith,
      )

  pub is_due_of_reached :
      (now : ℕ) (d : WebhookDelivery)
      → is_pending d.status ≡ true
      → reached now d.next_attempt_at ≡ true
      → is_due now d ≡ true
  unfolding is_due
  is_due_of_reached now d p t = rw (p, t)

  pub still_pending :
      (at : ℕ) (active : Bool) (response : Response) (d : WebhookDelivery)
      → let next = attempt_webhook_delivery jitter format settings at active response d in
        is_pending next.status ≡ true
        → (next.attempts ≡ d.attempts + 1) × (d.attempts + 1 < max_attempts settings)
  still_pending at active response d h =
      let next = attempt_webhook_delivery jitter format settings at active response d in
      let p : next.status ≡ pending = is_pending_inv next.status h in
      let (_, _, few) = (attempt-pending_iff at active response d).0 p in
      (pending-attempts at active response d p, few)

  pub attempt-id :
      (at : ℕ) (active : Bool) (response : Response) (d : WebhookDelivery)
      → (attempt_webhook_delivery jitter format settings at active response d).id ≡ d.id
  unfolding attempt_webhook_delivery handle_delivery_failure
  attempt-id at false response d = refl
  attempt-id at true (thrown error) d = refl
  attempt-id at true (responded code snippet) d = elim (Bool-cases (is_ok code)) [
    | inl y ↦ rw y refl
    | inr n ↦ rw n refl
  ]

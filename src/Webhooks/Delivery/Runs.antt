-- ===== src/Webhooks/Delivery/Runs.antt =====
-- `processPendingDeliveries` of src/webhooks/webhooks.service.ts: a run of the worker over the table
-- of deliveries, by the one process that serves it. The order in which its workers attempt the
-- deliveries is in Delivery.Workers.
pub mod Laws
pub mod Ends
use stackaura_checkout_api.Base.{
  ℕ, String, Bool, true, false, Option, none, some, List, [], ◌∷◌, ◌==◌, ◌&&◌, ◌||◌, ◌-◌, nat_eq,
  ltb, leb, if◌then◌else◌,
}
use stackaura_checkout_api.Webhooks.Delivery.{
  WebhookDelivery, Settings, Response, is_due, batch_size, attempt_webhook_delivery,
}

-- What a call depends on: its time, whether it finds another run in progress
-- (`deliveryWorkerRunning`), the `limit` of its options, and, for the ids of the deliveries, the
-- time of an attempt, whether the endpoint is active, and what it answers.
pub record Run : Type 0 where
  pub now : ℕ
  pub delivery_worker_running : Bool
  pub limit : Option ℕ
  pub attempted_at : String → ℕ
  pub endpoint_active : String → Bool
  pub response : String → Response

-- `orderBy: [{ nextAttemptAt: 'asc' }, { createdAt: 'asc' }]`; the database puts NULL last.
abbrev time_before : Option ℕ → Option ℕ → Bool
time_before (some s) (some t) = ltb s t
time_before (some s) none = true
time_before none t = false

abbrev same_time : Option ℕ → Option ℕ → Bool
same_time (some s) (some t) = s == t
same_time none none = true
same_time _ _ = false

abbrev in_order : WebhookDelivery → WebhookDelivery → Bool
in_order d e =
    time_before d.next_attempt_at e.next_attempt_at
    || (same_time d.next_attempt_at e.next_attempt_at && leb d.created_at e.created_at)

abbrev pub insert : WebhookDelivery → List WebhookDelivery → List WebhookDelivery
insert d [] = d ∷ []
insert d (e ∷ es) = let rest = insert d es in if in_order d e then d ∷ e ∷ es else e ∷ rest

abbrev pub order_rows : List WebhookDelivery → List WebhookDelivery
order_rows [] = []
order_rows (d ∷ ds) = insert d (order_rows ds)

module _ (jitter : ℕ → ℕ) (format_http_failure : ℕ → Option String → String)
    (settings : Settings) where
  abbrev pub attempt : Run → WebhookDelivery → WebhookDelivery
  attempt run d =
      attempt_webhook_delivery jitter format_http_failure settings (run.attempted_at d.id)
        (run.endpoint_active d.id) (run.response d.id) d

  -- The first `take` of the deliveries that are due are attempted.
  abbrev pub attempt_batch : Run → ℕ → List WebhookDelivery → List WebhookDelivery
  attempt_batch run take [] = []
  attempt_batch run take (d ∷ ds) = elim (is_due run.now d && ltb 0 take) [
    | true ↦ attempt run d ∷ attempt_batch run (take - 1) ds
    | false ↦ d ∷ attempt_batch run take ds
  ]

  unfoldable pub process_pending_deliveries : Run → List WebhookDelivery → List WebhookDelivery
  process_pending_deliveries run rows =
      if run.delivery_worker_running
      then rows
      else attempt_batch run (batch_size settings run.limit) (order_rows rows)

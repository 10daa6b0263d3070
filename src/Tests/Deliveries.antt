-- ===== src/Tests/Deliveries.antt =====
-- A delivery whose endpoint answers with errors, and a run of two workers.
use stackaura_checkout_api.Base.{
  ℕ, String, true, false, Option, none, some, List, [], ◌∷◌, ◌≡◌, refl, ◌↔◌, ◌<◌, arith, All, map,
  count_if, ◌≤◌, ◌+◌, string_eq, false,
}
use stackaura_checkout_api.Webhooks.Delivery.{
  DeliveryStatus, WebhookDelivery, Settings, responded, max_attempts, attempt_webhook_delivery,
  handle_delivery_failure, next_retry_at, is_due, is_pending, batch_size, parse_positive_int,
  reset_delivery, retry_webhook_delivery,
}
use stackaura_checkout_api.Webhooks.Delivery.Laws.{MayRetry, attempt-pending_iff}
use stackaura_checkout_api.Webhooks.Delivery.Runs.{Run, process_pending_deliveries}
use stackaura_checkout_api.Webhooks.Delivery.Runs.Laws.{process_all}
use stackaura_checkout_api.Webhooks.Delivery.Runs.Ends.{left_in_all, AllReached, process_all-ends}
use stackaura_checkout_api.Webhooks.Delivery.Workers.{
  Worker, at_head, attempting, returned, Pool, take, finish, leave, Steps, stop, step, start,
  every_attempted,
}
use stackaura_checkout_api.Base.Result.{ok}
use stackaura_checkout_api.Base.Text.{trim}
use stackaura_checkout_api.Webhooks.Delivery.ByHand.{retry_webhook_delivery-once}

abbrev settings : Settings
settings = record {
  webhook_worker_batch_size = none;
  webhook_worker_concurrency = none;
  webhook_max_attempts = some (record { positive = true; floor = 2 });
  webhook_initial_delay_ms = none;
  webhook_max_delay_ms = none;
}

abbrev delivery : WebhookDelivery
delivery = record {
  id = "d1";
  event = "payment_intent.succeeded";
  status = DeliveryStatus.pending;
  attempts = 0;
  last_status_code = none;
  last_error = none;
  next_attempt_at = none;
  created_at = 0;
}

abbrev no_jitter : ℕ → ℕ
no_jitter n = 0

abbrev format : ℕ → Option String → String
format code snippet = "HTTP error"

attempt-pending_iff_example :
    ((attempt_webhook_delivery no_jitter format settings 0 true
        (responded 503 none)
        delivery).status
      ≡ DeliveryStatus.pending)
    ↔ ((true ≡ true) × MayRetry (responded 503 none) × (1 < max_attempts settings))
attempt-pending_iff_example =
    attempt-pending_iff no_jitter format settings 0 true (responded 503 none) delivery

retry_at :
    (attempt_webhook_delivery no_jitter format settings 0 true
      (responded 503 none)
      delivery).next_attempt_at
    ≡ some 30000
unfolding attempt_webhook_delivery handle_delivery_failure next_retry_at parse_positive_int
retry_at = refl

two_allowed : (max_attempts settings ≡ 2)
unfolding parse_positive_int
two_allowed = refl

-- Runs that take one delivery each; `next` is the other delivery.
abbrev next : WebhookDelivery
next = record delivery { id = "d2"; created_at = 1 }

abbrev run_at : ℕ → Run
run_at now = record {
  now = now;
  delivery_worker_running = false;
  limit = some 1;
  attempted_at = λ id. now;
  endpoint_active = λ id. true;
  response = λ id. responded 503 none;
}

abbrev runs : List Run
runs = run_at 0 ∷ run_at 40000 ∷ run_at 80000 ∷ run_at 120000 ∷ []

abbrev table : List WebhookDelivery
table = next ∷ delivery ∷ []

-- The older delivery is taken first, and the newer one waits for its turn.
first_taken :
    map
      (λ (d : WebhookDelivery). d.attempts)
      (process_pending_deliveries no_jitter format settings (run_at 0) table)
    ≡ 1 ∷ 0 ∷ []
unfolding process_pending_deliveries is_due attempt_webhook_delivery handle_delivery_failure
    next_retry_at parse_positive_int
first_taken = refl

all_reached : AllReached no_jitter format settings runs table
unfolding process_pending_deliveries is_due attempt_webhook_delivery handle_delivery_failure
    next_retry_at parse_positive_int
all_reached = (
  refl,
  ((λ p. refl), ((λ p. refl), tt)),
  (
    refl,
    ((λ p. refl), ((λ p. refl), tt)),
    (refl, ((λ p. refl), ((λ p. refl), tt)), (refl, ((λ p. refl), ((λ p. refl), tt)), tt)),
  ),
)

four_left : left_in_all no_jitter format settings table ≡ 4
unfolding parse_positive_int
four_left = refl

process_all-ends_example :
    All
      (λ (d : WebhookDelivery). is_pending d.status ≡ false)
      (process_all no_jitter format settings runs table)
process_all-ends_example =
    process_all-ends no_jitter format settings runs table all_reached (omega (arith, four_left))

-- One worker takes both deliveries of a run while the other is stuck at its head, and then both return.
abbrev pool : ℕ → List Worker → List ℕ → Pool
pool index workers attempted = record { index = index; workers = workers; attempted = attempted }

abbrev last_pool : Pool
last_pool = pool 4 (returned ∷ returned ∷ []) (1 ∷ 0 ∷ [])

run : Steps 2 (start 5 2) last_pool
run = step _ _ _ (take [] (at_head ∷ []) 0 [] (omega arith)) (
    step _ _ _ (take (attempting 0 ∷ []) [] 1 (0 ∷ []) (omega arith)) (
      step _ _ _ (finish [] (attempting 1 ∷ []) 2 0 (1 ∷ 0 ∷ [])) (
        step _ _ _ (leave [] (attempting 1 ∷ []) 2 (1 ∷ 0 ∷ []) (omega arith)) (
          step _ _ _ (finish (returned ∷ []) [] 3 1 (1 ∷ 0 ∷ []))
            (step _ _ _ (leave (returned ∷ []) [] 3 (1 ∷ 0 ∷ []) (omega arith)) (stop _))))))

every_attempted_example : last_pool.attempted ≡ 1 ∷ 0 ∷ []
every_attempted_example = every_attempted 5 2 last_pool (omega arith) run (refl, (refl, tt))

-- A delivery that has been given up, tried again by hand.
abbrev given_up : WebhookDelivery
given_up = record delivery { status = DeliveryStatus.failed; attempts = 2 }

abbrev owner : String → Option String
owner id = some "m1"

abbrev given_back : List WebhookDelivery
given_back = reset_delivery 90 given_up ∷ next ∷ []

reset : retry_webhook_delivery owner 90 " d1" "m1" (given_up ∷ next ∷ []) ≡ ok given_back
unfolding retry_webhook_delivery trim
reset = refl

abbrev both : Run
both = record (run_at 99) { limit = some 2 }

room : count_if (is_due both.now) given_back ≤ batch_size settings both.limit
unfolding is_due
room = omega arith

other : (next.id ≡ trim " d1") → max_attempts settings ≤ next.attempts + 1
unfolding trim
other e = absurd (cc)

retry_webhook_delivery-once_example :
    All
      (λ (d : WebhookDelivery). d.id ≡ trim " d1" → is_pending d.status ≡ false)
      (process_pending_deliveries no_jitter format settings both given_back)
retry_webhook_delivery-once_example =
    retry_webhook_delivery-once no_jitter format settings owner 90 " d1" "m1" (given_up ∷ next ∷ [])
      given_back both reset (omega arith) refl room ((λ e. omega (arith, two_allowed)), (other, tt))

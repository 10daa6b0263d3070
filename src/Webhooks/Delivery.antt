-- ===== src/Webhooks/Delivery.antt =====
-- src/webhooks/webhooks.service.ts: the worker that sends the merchants' webhooks: which deliveries
-- are due, one attempt at each, and when a failed one is tried again.
pub mod Laws
pub mod Runs
pub mod ByHand
pub mod Workers
use stackaura_checkout_api.Base.{
  ℕ, String, Bool, true, false, not, Option, none, some, List, [], ◌∷◌, ◌==◌, ◌&&◌, ◌||◌, ◌+◌, ◌-◌,
  ◌*◌, ◌^◌, min, max, ltb, leb, filter, if◌then◌else◌, ◌otherwise◌, string_eq, update_where,
}
use stackaura_checkout_api.Base.Result.{Result, ok, bad_request, not_found, ◌>>◌, require}
use stackaura_checkout_api.Base.Text.{trim, truthy}

-- `enum WebhookDeliveryStatus`
pub data DeliveryStatus : Type 0 where
  pending success failed skipped : DeliveryStatus

-- `model WebhookDelivery`; times are in milliseconds.
pub record WebhookDelivery : Type 0 where
  pub id : String
  pub event : String
  pub status : DeliveryStatus
  pub attempts : ℕ
  pub last_status_code : Option ℕ
  pub last_error : Option String
  pub next_attempt_at : Option ℕ
  pub created_at : ℕ

-- What `Number(value)` gives where it is finite: whether it is above 0, and its `Math.floor` if so.
pub record Finite : Type 0 where
  pub positive : Bool
  pub floor : ℕ

unfoldable pub parse_positive_int : Option Finite → ℕ → ℕ
parse_positive_int none fallback = fallback
parse_positive_int (some parsed) fallback = if parsed.positive then parsed.floor else fallback

-- The numbers that the worker reads from `process.env`, as `Number` reads them.
pub record Settings : Type 0 where
  pub webhook_worker_batch_size : Option Finite
  pub webhook_worker_concurrency : Option Finite
  pub webhook_max_attempts : Option Finite
  pub webhook_initial_delay_ms : Option Finite
  pub webhook_max_delay_ms : Option Finite

abbrev pub batch_size : Settings → Option ℕ → ℕ
batch_size settings limit =
    max 1 (min 200 (limit otherwise parse_positive_int settings.webhook_worker_batch_size 25))

abbrev pub concurrency : Settings → Option ℕ → ℕ
concurrency settings option =
    max 1 (min 50 (option otherwise parse_positive_int settings.webhook_worker_concurrency 5))

-- The condition of the query for pending deliveries.
abbrev pub is_pending : DeliveryStatus → Bool
is_pending pending = true
is_pending _ = false

abbrev pub reached : ℕ → Option ℕ → Bool
reached now none = true
reached now (some t) = leb t now

unfoldable pub is_due : ℕ → WebhookDelivery → Bool
is_due now d = is_pending d.status && reached now d.next_attempt_at

abbrev pub max_attempts : Settings → ℕ
max_attempts settings = parse_positive_int settings.webhook_max_attempts 5

abbrev pub max_delay_ms : Settings → ℕ
max_delay_ms settings = parse_positive_int settings.webhook_max_delay_ms 900000

abbrev pub initial_delay_ms : Settings → ℕ
initial_delay_ms settings = parse_positive_int settings.webhook_initial_delay_ms 30000

abbrev pub exponential_delay : Settings → ℕ → ℕ
exponential_delay settings attempt_number =
    min (max_delay_ms settings) (initial_delay_ms settings * max 1 (2 ^ (attempt_number - 1)))

-- `jitter d` is the `Math.floor(d * 0.2 * Math.random())` of the call.
unfoldable pub next_retry_at : (ℕ → ℕ) → Settings → ℕ → ℕ → ℕ
next_retry_at jitter settings now attempt_number =
    let delay = exponential_delay settings attempt_number in now + delay + jitter delay

-- What `fetch` ends with: an exception, or a status code with the start of the body.
pub data Response : Type 0 where
  thrown : String → Response
  responded : ℕ → Option String → Response

-- `response.ok`
abbrev pub is_ok : ℕ → Bool
is_ok code = leb 200 code && ltb code 300

abbrev pub is_client_error : Option ℕ → Bool
is_client_error none = false
is_client_error (some code) = leb 400 code && ltb code 500

-- `shouldRetry` of `handleDeliveryFailure`
abbrev pub should_retry : Settings → ℕ → Option ℕ → Bool
should_retry settings attempt_number code =
    not (is_client_error code) && ltb attempt_number (max_attempts settings)

unfoldable pub handle_delivery_failure :
    (ℕ → ℕ) → Settings → ℕ → ℕ → Option ℕ → String → WebhookDelivery → WebhookDelivery
unfolding next_retry_at
handle_delivery_failure jitter settings now attempt_number code error d =
    let retry = should_retry settings attempt_number code in
    record d {
      status = if retry then pending else failed;
      attempts = attempt_number;
      last_status_code = code;
      last_error = some error;
      next_attempt_at =
          if retry then some (next_retry_at jitter settings now attempt_number) else none;
    }

-- One attempt; `format_http_failure` writes the message for a status code and the start of the body.
unfoldable pub attempt_webhook_delivery :
    (ℕ → ℕ)
    → (ℕ → Option String → String)
    → Settings
    → ℕ
    → Bool
    → Response
    → WebhookDelivery
    → WebhookDelivery
unfolding handle_delivery_failure
attempt_webhook_delivery jitter format_http_failure settings now false response d = record d {
  status = skipped;
  last_error = some "Endpoint is disabled";
  next_attempt_at = none;
}
attempt_webhook_delivery jitter format_http_failure settings now true (thrown error) d =
    handle_delivery_failure jitter settings now (d.attempts + 1) none error d
attempt_webhook_delivery jitter format_http_failure settings now true (responded code snippet) d =
    if is_ok code
    then record d {
      status = success;
      attempts = d.attempts + 1;
      last_status_code = some code;
      last_error = snippet;
      next_attempt_at = none;
    }
    else handle_delivery_failure jitter settings now (d.attempts + 1) (some code)
        (format_http_failure code snippet) d

-- What a retry by hand writes into the row.
abbrev pub reset_delivery : ℕ → WebhookDelivery → WebhookDelivery
reset_delivery now d = record d { status = pending; next_attempt_at = some now }

abbrev is_owned : Option String → String → Bool
is_owned none merchant = false
is_owned (some owner) merchant = owner == merchant

-- `owner` gives the merchant of the endpoint of a delivery, for the ids of the table.
unfoldable pub retry_webhook_delivery :
    (String → Option String)
    → ℕ
    → String
    → String
    → List WebhookDelivery
    → Result (List WebhookDelivery)
retry_webhook_delivery owner now delivery_id merchant_id rows =
    require (truthy (trim delivery_id)) (bad_request "deliveryId is required")
    >> require (truthy (trim merchant_id)) (bad_request "merchantId is required")
    >> require (is_owned (owner (trim delivery_id)) (trim merchant_id))
        (not_found "Webhook delivery not found")
    >> ok
        (update_where (λ (d : WebhookDelivery). d.id == trim delivery_id) (reset_delivery now) rows)

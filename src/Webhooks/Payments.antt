-- ===== src/Webhooks/Payments.antt =====
-- src/webhooks/webhooks.service.ts: what a payment provider's notification does to a payment, its
-- latest attempt and the event table. The four handlers share the text of their transaction; what
-- differs between them is a `Channel`.
pub mod Laws
pub mod Redelivery
use stackaura_checkout_api.Base.{
  ℕ, String, Bool, true, false, not, Option, none, some, List, [], ◌∷◌, ◌==◌, ◌/=◌, ◌&&◌, string_eq,
  find?, if◌then◌else◌, ◌otherwise◌, ◌or_else◌, contains,
}
use stackaura_checkout_api.Base.Text.{trim, truthy, to_upper}
use stackaura_checkout_api.Domain.{
  PaymentStatus, paid, failed, cancelled, pending, AttemptStatus, GatewayProvider, payfast, ozow,
  yoco, paystack, payment_status_eq, attempt_status_eq,
}
use stackaura_checkout_api.Store.{Payment, Attempt, WebhookEvent, Db}
use stackaura_checkout_api.Store.Keys.{update_row}
use stackaura_checkout_api.Payments.Status.{
  can_transition_payment_status, map_payment_status_to_attempt_status,
}
use stackaura_checkout_api.Webhooks.Events.{
  Receipt, already_processed, duplicate, received, receive, mark_processed,
}

-- `mapPayfastStatus`
payfast_word : String → PaymentStatus
payfast_word s =
    if s == "COMPLETE"
    then paid
    else if s == "FAILED"
    then failed
    else if s == "CANCELLED"
    then cancelled
    else pending

unfoldable pub map_payfast_status : Option String → PaymentStatus
unfolding payfast_word
map_payfast_status none = pending
map_payfast_status (some s) = payfast_word (to_upper (trim s))

-- `mapOzowStatus`
ozow_word : String → PaymentStatus
ozow_word s =
    if contains ("COMPLETE" ∷ "COMPLETED" ∷ "SUCCESS" ∷ "SUCCESSFUL" ∷ "PAID" ∷ []) s
    then paid
    else if contains ("CANCELLED" ∷ "CANCELED" ∷ "ABANDONED" ∷ []) s
    then cancelled
    else if contains ("FAILED" ∷ "FAILURE" ∷ "ERROR" ∷ "REJECTED" ∷ "DECLINED" ∷ []) s
    then failed
    else pending

unfoldable pub map_ozow_status : Option String → PaymentStatus
unfolding ozow_word
map_ozow_status none = pending
map_ozow_status (some s) = ozow_word (to_upper (trim s))

-- What a handler passes on to its transaction; `gateway_ref` is Yoco's `checkoutId` and Paystack's
-- `accessCode`.
pub record Notification : Type 0 where
  pub provider_event_id : String
  pub event_type : Option String
  pub payment_reference : String
  pub mapped_status : PaymentStatus
  pub gateway_ref : Option String
  pub signature : Option String
  pub payload : String
  pub raw_gateway : String

pub record Channel : Type 0 where
  pub provider : String
  pub gateway : GatewayProvider
  -- The transition test of the handler.
  pub allows : PaymentStatus → PaymentStatus → Bool
  -- The `gatewayRef` that the update leaves, from the notification's and the payment's.
  pub new_ref : Option String → Option String → Option String

-- `WebhookEvent.eventType` is 'itn' and 'notify' for the first two channels, so their notifications
-- carry it.
abbrev pub payfast_channel : Channel
payfast_channel = record {
  provider = "PAYFAST_ITN";
  gateway = payfast;
  allows = λ s t. not (s /= t && not (can_transition_payment_status s t));
  new_ref = λ sent old. sent;
}

abbrev pub ozow_channel : Channel
ozow_channel = record {
  provider = "OZOW";
  gateway = ozow;
  allows = can_transition_payment_status;
  new_ref = λ sent old. sent;
}

abbrev pub yoco_channel : Channel
yoco_channel = record {
  provider = "YOCO";
  gateway = yoco;
  allows = can_transition_payment_status;
  new_ref = λ sent old. sent or_else old;
}

abbrev pub paystack_channel : Channel
paystack_channel = record {
  provider = "PAYSTACK";
  gateway = paystack;
  allows = can_transition_payment_status;
  new_ref = λ sent old. sent or_else old;
}

-- What the transaction answers.
pub record Outcome : Type 0 where
  pub deduplicated : Bool
  pub status_changed : Bool
  pub updated_payment : Option Payment

abbrev pub unchanged : Bool → Outcome
unchanged b = record { deduplicated = b; status_changed = false; updated_payment = none }

abbrev pub event_of : Channel → Notification → WebhookEvent
event_of channel n = record {
  provider = channel.provider;
  provider_event_id = n.provider_event_id;
  event_type = n.event_type;
  payout_reference = some n.payment_reference;
  payload = n.payload;
  signature = n.signature;
  processed_at = none;
}

abbrev pub with_notification : Channel → Notification → Payment → Payment
with_notification channel n payment = record payment {
  status = n.mapped_status;
  gateway = some channel.gateway;
  gateway_ref = channel.new_ref n.gateway_ref payment.gateway_ref;
  raw_gateway = some n.raw_gateway;
}

-- The attempts of the payment after the update: the latest one takes the status that the payment's
-- status stands for, if there is one.
unfoldable pub settle_attempt : PaymentStatus → Option Attempt → List Attempt → List Attempt
settle_attempt status none attempts = attempts
settle_attempt status (some latest) attempts = elim (map_payment_status_to_attempt_status status) [
  | none ↦ attempts
  | some target ↦
      if latest.status /= target
      then update_row (λ (a : Attempt). a.id) latest.id (λ a. record a { status = target }) attempts
      else attempts
]

-- The part of the transaction that follows the receipt, without the final mark.
unfoldable pub apply_to_payment : Channel → Notification → Option Payment → Db → Db × Outcome
unfolding settle_attempt
apply_to_payment channel n none db = (db, unchanged false)
apply_to_payment channel n (some payment) db =
    let updated = with_notification channel n payment in
    let latest = find? (λ (a : Attempt). a.payment_id == payment.id) db.attempts in
    if payment.status == paid && n.mapped_status == paid
    then (db, unchanged false)
    else if channel.allows payment.status n.mapped_status
    then (
      record db {
        payments =
            update_row (λ (p : Payment). p.id) payment.id (with_notification channel n) db.payments;
        attempts = settle_attempt n.mapped_status latest db.attempts;
      },
      record {
        deduplicated = false;
        status_changed = updated.status /= payment.status;
        updated_payment = some updated;
      },
    )
    else (db, unchanged false)

abbrev pub mark : ℕ → Channel → Notification → Db → Db
mark now channel n db = record db {
  events = mark_processed now channel.provider n.provider_event_id db.events;
}

abbrev pub find_payment : Notification → Db → Option Payment
find_payment n db = find? (λ (p : Payment). p.reference == n.payment_reference) db.payments

-- The transaction once the event is stored.
unfoldable pub process : ℕ → Channel → Notification → Db → Db × Outcome
unfolding apply_to_payment
process now channel n db =
    let (db', outcome) = apply_to_payment channel n (find_payment n db) db in
    (mark now channel n db', outcome)

abbrev on_receipt : ℕ → Channel → Notification → Db → Receipt → Db × Outcome
on_receipt now channel n db already_processed = (db, unchanged true)
on_receipt now channel n db duplicate = (db, unchanged true)
on_receipt now channel n db (received events) =
    process now channel n (record db { events = events })

-- The transaction and its `catch`: a duplicate event rolls it back and answers `deduplicated`.
unfoldable pub persist_and_apply :
    Channel → ℕ → List WebhookEvent → Notification → Db → Db × Outcome
persist_and_apply channel now snapshot n db =
    on_receipt now channel n db (receive (event_of channel n) snapshot db.events)

unfoldable pub persist_and_apply_payfast_webhook :
    ℕ → List WebhookEvent → Notification → Db → Db × Outcome
persist_and_apply_payfast_webhook = persist_and_apply payfast_channel

unfoldable pub persist_and_apply_ozow_webhook :
    ℕ → List WebhookEvent → Notification → Db → Db × Outcome
persist_and_apply_ozow_webhook = persist_and_apply ozow_channel

unfoldable pub persist_and_apply_yoco_webhook :
    ℕ → List WebhookEvent → Notification → Db → Db × Outcome
persist_and_apply_yoco_webhook = persist_and_apply yoco_channel

unfoldable pub persist_and_apply_paystack_webhook :
    ℕ → List WebhookEvent → Notification → Db → Db × Outcome
persist_and_apply_paystack_webhook = persist_and_apply paystack_channel

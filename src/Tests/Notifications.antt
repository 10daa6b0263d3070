-- ===== src/Tests/Notifications.antt =====
-- A payment and a payout, and the notifications that arrive for them.
use text.Mathlib.TextEquality.{eq_iff}
use stackaura_checkout_api.Base.{
  String, true, false, none, some, List, [], ◌∷◌, ◌==◌, ◌≡◌, ◌≢◌, refl, string_eq, find?, map, inr,
  arith,
}
use stackaura_checkout_api.Domain.{
  PaymentStatus, PayoutStatus, AttemptStatus, payment_status_eq, yoco,
}
use stackaura_checkout_api.Store.{Payment, Attempt, Payout, Db}
use stackaura_checkout_api.Store.Keys.{Pointwise}
use stackaura_checkout_api.Payments.Status.{
  can_transition_payment_status, map_payment_status_to_attempt_status,
}
use stackaura_checkout_api.Webhooks.Events.{
  receive, received, find_event, create_event, mark_processed,
}
use stackaura_checkout_api.Webhooks.Payments.{
  Notification, yoco_channel, event_of, unchanged, with_notification, persist_and_apply, process,
  apply_to_payment, settle_attempt,
}
use stackaura_checkout_api.Webhooks.Payments.Laws.{
  Arrival, yoco_events, payfast_itn, Evolves, arrive_all, arrive_all-Evolves,
  arrive_all_of_IsTerminal,
}
use stackaura_checkout_api.Webhooks.Payments.Redelivery.{redelivered_unchanged}
use stackaura_checkout_api.Webhooks.Payouts.{
  PayoutNotification, deriv_event, find_payout, persist_and_apply_deriv_webhook,
  can_transition_payout_status, process_payout, apply_to_payout,
}
use stackaura_checkout_api.Webhooks.Payouts.Laws.{
  PayoutArrival, PayoutEvolves, notify_all, notify_all-PayoutEvolves,
}
use stackaura_checkout_api.Webhooks.Payouts.EarlyResults.{
  Redelivery, redeliver_all, early_result_lost,
}

abbrev payment : String → String → PaymentStatus → Payment
payment id reference status = record {
  id = id;
  merchant_id = "m1";
  reference = reference;
  currency = "ZAR";
  amount_cents = 1000;
  platform_fee_cents = 50;
  merchant_net_cents = 950;
  status = status;
  gateway = some yoco;
  gateway_ref = none;
  raw_gateway = none;
  description = none;
}

abbrev attempt : Attempt
attempt = record {
  id = "a1";
  payment_id = "p1";
  gateway = yoco;
  status = AttemptStatus.pending;
  redirect_url = "https://pay";
}

abbrev payout : Payout
payout = record {
  id = "o1";
  merchant_id = "m1";
  reference = "out1";
  idempotency_key = some "k1";
  currency = "ZAR";
  amount_cents = 700;
  status = PayoutStatus.created;
  deriv_account_id = some "CR1";
  beneficiary_name = none;
  provider_ref = none;
  failure_code = none;
  failure_message = none;
  raw_provider = none;
}

abbrev db : Db
db = record {
  payments = payment "p1" "r1" PaymentStatus.pending ∷ payment "p2" "r2" PaymentStatus.paid ∷ [];
  attempts = attempt ∷ [];
  payouts = payout ∷ [];
  events = [];
}

abbrev says : String → String → PaymentStatus → Notification
says event reference status = record {
  provider_event_id = event;
  event_type = some "payment.succeeded";
  payment_reference = reference;
  mapped_status = status;
  gateway_ref = some "ch1";
  signature = none;
  payload = "{}";
  raw_gateway = "{}";
}

-- The payment is paid, the notification of it is delivered again, and an older one says that it failed.
abbrev arrivals : List Arrival
arrivals =
    record {
      route = yoco_events;
      now = 1;
      snapshot = [];
      notification = says "e1" "r1" PaymentStatus.paid;
    }
    ∷ record {
      route = yoco_events;
      now = 2;
      snapshot = [];
      notification = says "e1" "r1" PaymentStatus.paid;
    }
    ∷ record {
      route = payfast_itn;
      now = 3;
      snapshot = [];
      notification = says "e2" "r1" PaymentStatus.failed;
    }
    ∷ []

what_arrives_last :
    find? (λ (p : Payment). p.id == "p1") (arrive_all arrivals db).payments
    ≡ some (
        with_notification yoco_channel
          (says "e1" "r1" PaymentStatus.paid)
          (payment "p1" "r1" PaymentStatus.pending))
unfolding persist_and_apply process apply_to_payment settle_attempt receive find_event create_event
    mark_processed can_transition_payment_status map_payment_status_to_attempt_status
what_arrives_last = refl

distinct : (payment "p2" "r2" PaymentStatus.paid).id ≢ "p1"
distinct h = let bad : false ≡ true = (eq_iff "p2" "p1").1 h in absurd (cc)

arrive_all-Evolves_example : Pointwise Evolves db.payments (arrive_all arrivals db).payments
arrive_all-Evolves_example = arrive_all-Evolves arrivals db ((distinct, tt), (tt, tt))

arrive_all_of_IsTerminal_example :
    (q : Payment) × (find? (λ (x : Payment). x.id == "p2") (arrive_all arrivals db).payments
      ≡ some q)
    × (q.status ≡ PaymentStatus.paid)
    × (q.amount_cents ≡ 1000)
    × (q.reference ≡ "r2")
arrive_all_of_IsTerminal_example =
    arrive_all_of_IsTerminal arrivals db "p2" (payment "p2" "r2" PaymentStatus.paid)
      ((distinct, tt), (tt, tt)) refl (ground arith, ground arith)

abbrev paid_now : Notification
paid_now = says "e1" "r1" PaymentStatus.paid

stored :
    receive (event_of yoco_channel paid_now) [] [] ≡ received (event_of yoco_channel paid_now ∷ [])
unfolding receive find_event create_event
stored = refl

redelivered_unchanged_example :
    let db' = (persist_and_apply yoco_channel 1 [] paid_now db).0 in
    persist_and_apply yoco_channel 2 db'.events (says "e1" "r9" PaymentStatus.failed) db'
    ≡ (db', unchanged true)
redelivered_unchanged_example =
    redelivered_unchanged yoco_channel 1 2 paid_now (says "e1" "r9" PaymentStatus.failed) db
      (event_of yoco_channel paid_now ∷ []) stored refl

answered :
    (persist_and_apply yoco_channel 1 [] paid_now db).1.updated_payment
    ≡ some (with_notification yoco_channel paid_now (payment "p1" "r1" PaymentStatus.pending))
unfolding persist_and_apply process apply_to_payment receive find_event create_event
    can_transition_payment_status
answered = refl

abbrev payout_says : String → PayoutStatus → PayoutNotification
payout_says event status = record {
  provider_event_id = event;
  event_type = none;
  payout_reference = "out1";
  mapped_status = status;
  provider_ref = some "d1";
  failure_code = some "E1";
  failure_message = some "no account";
  signature = "s";
  payload = "{}";
}

abbrev payout_arrivals : List PayoutArrival
payout_arrivals =
    record { now = 1; snapshot = []; notification = payout_says "e1" PayoutStatus.pending }
    ∷ record { now = 2; snapshot = []; notification = payout_says "e2" PayoutStatus.failed }
    ∷ record { now = 3; snapshot = []; notification = payout_says "e3" PayoutStatus.success }
    ∷ []

payout_failed :
    map (λ (p : Payout). p.status) (notify_all payout_arrivals db).payouts
    ≡ PayoutStatus.failed ∷ []
unfolding persist_and_apply_deriv_webhook process_payout apply_to_payout receive find_event
    create_event mark_processed can_transition_payout_status
payout_failed = refl

notify_all-PayoutEvolves_example :
    Pointwise PayoutEvolves db.payouts (notify_all payout_arrivals db).payouts
notify_all-PayoutEvolves_example = notify_all-PayoutEvolves payout_arrivals db (tt, tt)

early_stored :
    receive (deriv_event (payout_says "e2" PayoutStatus.failed)) [] []
    ≡ received (deriv_event (payout_says "e2" PayoutStatus.failed) ∷ [])
unfolding receive find_event create_event
early_stored = refl

-- The provider repeats the event, and then says the contrary under the same id.
abbrev redeliveries : List Redelivery
redeliveries =
    record { now = 6; notification = payout_says "e2" PayoutStatus.failed }
    ∷ record { now = 7; notification = payout_says "e2" PayoutStatus.success }
    ∷ []

early_result_lost_example :
    let n = payout_says "e2" PayoutStatus.failed in
    let after = redeliver_all redeliveries (persist_and_apply_deriv_webhook 5 db.events n db).0 in
    (after.payouts ≡ db.payouts) × (find_payout n after ≡ some payout)
early_result_lost_example =
    early_result_lost 5 (payout_says "e2" PayoutStatus.failed) db payout
      (deriv_event (payout_says "e2" PayoutStatus.failed) ∷ []) redeliveries early_stored refl refl
      (inr refl) (refl, (refl, tt))

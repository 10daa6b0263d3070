-- ===== src/Webhooks/Payments/Laws.antt =====
-- What notifications do to the payments, one at a time and in any sequence.
use stackaura_checkout_api.Base.{
  ℕ, String, true, some, List, [], ◌∷◌, ◌==◌, ◌≡◌, refl, ap, ◌∙◌, string_eq, find?, Bool-cases,
  Option-cases, inl, inr, arith, ◌&&◌,
}
use stackaura_checkout_api.Domain.{PaymentStatus, paid, payment_status_eq}
use stackaura_checkout_api.Store.{Payment, WebhookEvent, Db}
use stackaura_checkout_api.Store.Keys.{
  Pointwise, Pointwise-refl, Pointwise-trans, HasKeys, found_only, update_row-Pointwise,
  update_row-HasKeys,
}
use stackaura_checkout_api.Payments.Status.{
  can_transition_payment_status, IsTerminal, terminal_stays,
}
use stackaura_checkout_api.Webhooks.Events.{
  Receipt, already_processed, duplicate, received, receive,
}
use stackaura_checkout_api.Webhooks.Payments.{
  Notification, Channel, payfast_channel, ozow_channel, yoco_channel, paystack_channel, event_of,
  with_notification, apply_to_payment, find_payment, process, on_receipt, persist_and_apply,
}

-- What may become of a payment: it keeps its identity and its amounts, and its status follows the
-- table.
abbrev pub Evolves : Payment → Payment → Type 0
Evolves p q =
    (q.id ≡ p.id)
    × (q.reference ≡ p.reference)
    × (q.merchant_id ≡ p.merchant_id)
    × (q.amount_cents ≡ p.amount_cents)
    × (can_transition_payment_status p.status q.status ≡ true)

abbrev pub payment_id : Payment → String
payment_id p = p.id

can_transition_refl : (s : PaymentStatus) → can_transition_payment_status s s ≡ true
unfolding can_transition_payment_status
can_transition_refl s = ground arith

can_transition_trans :
    (s t u : PaymentStatus)
    → can_transition_payment_status s t ≡ true
    → can_transition_payment_status t u ≡ true
    → can_transition_payment_status s u ≡ true
unfolding can_transition_payment_status
can_transition_trans s t u h k = ground arith

Evolves-refl : (p : Payment) → Evolves p p
Evolves-refl p = (refl, refl, refl, refl, can_transition_refl p.status)

Evolves-trans : (p q r : Payment) → Evolves p q → Evolves q r → Evolves p r
Evolves-trans p q r (a, b, c, d, s) (a', b', c', d', s') =
    (a' ∙ a, b' ∙ b, c' ∙ c, d' ∙ d, can_transition_trans p.status q.status r.status s s')

-- The test of a handler implies the table's.
abbrev pub IsSound : Channel → Type 0
IsSound channel =
    (s t : PaymentStatus) → channel.allows s t ≡ true → can_transition_payment_status s t ≡ true

payfast-IsSound : IsSound payfast_channel
unfolding can_transition_payment_status
payfast-IsSound s t h = ground arith

-- The payments after a change, and that their keys stay unique.
abbrev Kept : Db → Db → Type 0
Kept db db' = Pointwise Evolves db.payments db'.payments × HasKeys payment_id db'.payments

Kept-refl : (db : Db) → HasKeys payment_id db.payments → Kept db db
Kept-refl db k = (Pointwise-refl Evolves db.payments Evolves-refl, k)

apply_found :
    (channel : Channel) (n : Notification) (db : Db) (payment : Payment)
    → IsSound channel
    → HasKeys payment_id db.payments
    → find_payment n db ≡ some payment
    → Kept db (apply_to_payment channel n (some payment) db).0
unfolding apply_to_payment
apply_found channel n db payment sound k found =
    elim (Bool-cases (payment.status == paid && n.mapped_status == paid)) [
      | inl t ↦ rw t (Kept-refl db k)
      | inr f ↦ elim (Bool-cases (channel.allows payment.status n.mapped_status)) [
        | inl t ↦
            rw (f, t)
              (
                update_row-Pointwise payment_id Evolves (with_notification channel n) payment
                    db.payments Evolves-refl
                    (refl, refl, refl, refl, sound payment.status n.mapped_status t)
                    (found_only payment_id (λ (p : Payment). p.reference == n.payment_reference)
                      db.payments k found),
                update_row-HasKeys payment_id payment.id (with_notification channel n) db.payments
                    (λ x. refl) k,
              )
        | inr g ↦ rw (f, g) (Kept-refl db k)
      ]
    ]

process-Kept :
    (channel : Channel) (now : ℕ) (n : Notification) (db : Db)
    → IsSound channel
    → HasKeys payment_id db.payments
    → Kept db (process now channel n db).0
unfolding process apply_to_payment
process-Kept channel now n db sound k = elim (Option-cases (find_payment n db)) [
  | inl e ↦ rw e (Kept-refl db k)
  | inr (payment, e) ↦ rw e (apply_found channel n db payment sound k e)
]

on_receipt-Kept :
    (channel : Channel) (now : ℕ) (n : Notification) (db : Db) (r : Receipt)
    → IsSound channel
    → HasKeys payment_id db.payments
    → Kept db (on_receipt now channel n db r).0
on_receipt-Kept channel now n db already_processed sound k = Kept-refl db k
on_receipt-Kept channel now n db duplicate sound k = Kept-refl db k
on_receipt-Kept channel now n db (received events) sound k =
    process-Kept channel now n (record db { events = events }) sound k

-- The four routes that notifications arrive on.
pub data Route : Type 0 where
  payfast_itn ozow_notify yoco_events paystack_events : Route

abbrev pub channel_of : Route → Channel
channel_of payfast_itn = payfast_channel
channel_of ozow_notify = ozow_channel
channel_of yoco_events = yoco_channel
channel_of paystack_events = paystack_channel

channel_of-IsSound : (r : Route) → IsSound (channel_of r)
channel_of-IsSound payfast_itn s t h = payfast-IsSound s t h
channel_of-IsSound ozow_notify s t h = h
channel_of-IsSound yoco_events s t h = h
channel_of-IsSound paystack_events s t h = h

-- One arrival: its route, its time, the events that its lookup sees, and what it says.
pub record Arrival : Type 0 where
  pub route : Route
  pub now : ℕ
  pub snapshot : List WebhookEvent
  pub notification : Notification

abbrev pub arrive : Arrival → Db → Db
arrive a db = (persist_and_apply (channel_of a.route) a.now a.snapshot a.notification db).0

abbrev pub arrive_all : List Arrival → Db → Db
arrive_all [] db = db
arrive_all (a ∷ as') db = arrive_all as' (arrive a db)

arrive-Kept : (a : Arrival) (db : Db) → HasKeys payment_id db.payments → Kept db (arrive a db)
unfolding persist_and_apply
arrive-Kept a db k =
    on_receipt-Kept (channel_of a.route) a.now a.notification db
      (receive (event_of (channel_of a.route) a.notification) a.snapshot db.events)
      (channel_of-IsSound a.route) k

arrive_all-Kept :
    (as' : List Arrival) (db : Db) → HasKeys payment_id db.payments → Kept db (arrive_all as' db)
arrive_all-Kept [] db k = Kept-refl db k
arrive_all-Kept (a ∷ as') db k =
    let (first, k1) = arrive-Kept a db k in
    let (rest, k2) = arrive_all-Kept as' (arrive a db) k1 in
    (
      Pointwise-trans Evolves db.payments (arrive a db).payments (arrive_all (a ∷ as') db).payments
          Evolves-trans first rest,
      k2,
    )

-- Whatever notifications arrive on the four routes, in whatever order and whatever their lookups
-- see, payments with unique ids keep their place, id, reference, merchant and amount, and the
-- status that each has in the end follows by the transition table from the one it had.
pub arrive_all-Evolves :
    (as' : List Arrival) (db : Db)
    → HasKeys payment_id db.payments
    → Pointwise Evolves db.payments (arrive_all as' db).payments
arrive_all-Evolves as' db k = (arrive_all-Kept as' db k).0

find-Evolves :
    (id : String) (ps qs : List Payment) {found : Payment}
    → Pointwise Evolves ps qs
    → find? (λ (x : Payment). x.id == id) ps ≡ some found
    → (q : Payment) × (find? (λ (x : Payment). x.id == id) qs ≡ some q) × Evolves found q
find-Evolves id (p ∷ ps) (q ∷ qs) {found} (h, hs) e =
    let same_test : (q.id == id) ≡ (p.id == id) = ap (λ (s : String). s == id) h.0 in
    elim (Bool-cases (p.id == id)) [
      | inl t ↦
          let e' : some p ≡ some found = rw t at e in
          let same : p ≡ found = cc in rw (same_test ∙ t) (q, refl, rw (← same) h)
      | inr f ↦ rw (same_test ∙ f) (find-Evolves id ps qs hs (rw f at e))
    ]
find-Evolves id (p ∷ ps) [] h e = absurd h
find-Evolves id [] qs h e = absurd (cc)

-- A payment that has reached PAID, FAILED, CANCELLED or REFUNDED is found by its id after any
-- sequence of notifications, with that status, its amount and its reference.
pub arrive_all_of_IsTerminal :
    (as' : List Arrival) (db : Db) (id : String) (p : Payment)
    → HasKeys payment_id db.payments
    → find? (λ (x : Payment). x.id == id) db.payments ≡ some p
    → IsTerminal p.status
    → (q : Payment) × (find? (λ (x : Payment). x.id == id) (arrive_all as' db).payments ≡ some q)
      × (q.status ≡ p.status)
      × (q.amount_cents ≡ p.amount_cents)
      × (q.reference ≡ p.reference)
arrive_all_of_IsTerminal as' db id p k found t =
    let (q, there, evolves) =
      find-Evolves id db.payments (arrive_all as' db).payments (arrive_all-Evolves as' db k)
        found in
    let (_, reference, _, amount, allowed) = evolves in
    (q, there, terminal_stays p.status q.status t allowed, amount, reference)

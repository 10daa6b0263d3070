-- ===== src/Webhooks/Payments/Redelivery.antt =====
-- What a provider's second delivery of a notification does.
use stackaura_checkout_api.Base.{
  ℕ, true, Option, none, some, List, ◌==◌, ◌≡◌, refl, ap, ◌∙◌, string_eq, Bool-cases, inl, inr,
  ◌&&◌,
}
use stackaura_checkout_api.Domain.{paid, payment_status_eq}
use stackaura_checkout_api.Store.{Payment, WebhookEvent, Db}
use stackaura_checkout_api.Webhooks.Events.{already_processed, received, receive, mark_processed}
use stackaura_checkout_api.Webhooks.Events.Laws.{receive_again}
use stackaura_checkout_api.Webhooks.Payments.{
  Notification, Channel, Outcome, unchanged, event_of, apply_to_payment, find_payment, process,
  persist_and_apply,
}

apply-events :
    (channel : Channel) (n : Notification) (o : Option Payment) (db : Db)
    → (apply_to_payment channel n o db).0.events ≡ db.events
unfolding apply_to_payment
apply-events channel n none db = refl
apply-events channel n (some payment) db =
    elim (Bool-cases (payment.status == paid && n.mapped_status == paid)) [
      | inl t ↦ rw t
      | inr f ↦ elim (Bool-cases (channel.allows payment.status n.mapped_status)) [
        | inl t ↦ rw (f, t)
        | inr g ↦ rw (f, g)
      ]
    ]

process-events :
    (channel : Channel) (now : ℕ) (n : Notification) (db : Db)
    → (process now channel n db).0.events
      ≡ mark_processed now channel.provider n.provider_event_id db.events
unfolding process
process-events channel now n db = rw (apply-events channel n (find_payment n db) db)

known_unchanged :
    (channel : Channel) (later : ℕ) (again : Notification) (db : Db)
    → receive (event_of channel again) db.events db.events ≡ already_processed
    → persist_and_apply channel later db.events again db ≡ (db, unchanged true)
unfolding persist_and_apply
known_unchanged channel later again db h = rw h

received_process :
    (channel : Channel) (now : ℕ) (n : Notification) (db : Db) (events : List WebhookEvent)
    → receive (event_of channel n) db.events db.events ≡ received events
    → persist_and_apply channel now db.events n db
      ≡ process now channel n (record db { events = events })
unfolding persist_and_apply
received_process channel now n db events h = rw h

-- A notification that was stored, whatever it did, is known when it is delivered again later, on
-- the same route and with the same event id: the second delivery, which may differ in everything
-- else, changes nothing and is answered as deduplicated.
pub redelivered_unchanged :
    (channel : Channel) (now later : ℕ) (n again : Notification) (db : Db)
    (events : List WebhookEvent)
    → receive (event_of channel n) db.events db.events ≡ received events
    → again.provider_event_id ≡ n.provider_event_id
    → let db' = (persist_and_apply channel now db.events n db).0 in
      persist_and_apply channel later db'.events again db' ≡ (db', unchanged true)
redelivered_unchanged channel now later n again db events h same =
    let db' = (persist_and_apply channel now db.events n db).0 in
    let marked = mark_processed now channel.provider n.provider_event_id events in
    let stored : db'.events ≡ marked =
      ap (λ (r : Db × Outcome). r.0.events) (received_process channel now n db events h)
      ∙ process-events channel now n (record db { events = events }) in
    known_unchanged channel later again db' (
      ap (λ es. receive (event_of channel again) es es) stored
      ∙ receive_again now (event_of channel n) (event_of channel again) db.events events h refl
          same)

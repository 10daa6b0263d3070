-- ===== src/Webhooks/Payouts/EarlyResults.antt =====
-- A result of a payout that arrives before the payout is pending, and its redeliveries.
use stackaura_checkout_api.Base.{
  ℕ, false, some, List, [], ◌∷◌, ◌≡◌, refl, ap, ◌∙◌, inl, inr, ◌⊎◌, All, string_eq,
}
use stackaura_checkout_api.Domain.{created, success, failed, payout_status_eq}
use stackaura_checkout_api.Store.{Payout, WebhookEvent, Db}
use stackaura_checkout_api.Webhooks.Events.{already_processed, received, receive, mark_processed}
use stackaura_checkout_api.Webhooks.Events.Laws.{receive_again}
use stackaura_checkout_api.Webhooks.Payouts.{
  PayoutNotification, PayoutOutcome, no_change, deriv_event, find_payout, apply_to_payout,
  process_payout, persist_and_apply_deriv_webhook, can_transition_payout_status,
}

-- A notification that is delivered once more, and when.
pub record Redelivery : Type 0 where
  pub now : ℕ
  pub notification : PayoutNotification

-- The redeliveries one after the other, each of which looks the event up in the table as it is.
abbrev pub redeliver_all : List Redelivery → Db → Db
redeliver_all [] db = db
redeliver_all (r ∷ rs) db =
    redeliver_all rs (persist_and_apply_deriv_webhook r.now db.events r.notification db).0

-- The result is refused, but its event is marked.
refused_but_marked :
    (now : ℕ) (n : PayoutNotification) (db : Db) (payout : Payout) (events : List WebhookEvent)
    → receive (deriv_event n) db.events db.events ≡ received events
    → find_payout n db ≡ some payout
    → payout.status ≡ created
    → (n.mapped_status ≡ success) ⊎ (n.mapped_status ≡ failed)
    → persist_and_apply_deriv_webhook now db.events n db ≡ (
      record db { events = mark_processed now "DERIV_PA" n.provider_event_id events },
      no_change false,
    )
unfolding persist_and_apply_deriv_webhook process_payout apply_to_payout
    can_transition_payout_status
refused_but_marked now n db payout events h found c (inl s) = rw (h, found, c, s) refl
refused_but_marked now n db payout events h found c (inr s) = rw (h, found, c, s) refl

known_unchanged :
    (later : ℕ) (again : PayoutNotification) (db : Db)
    → receive (deriv_event again) db.events db.events ≡ already_processed
    → (persist_and_apply_deriv_webhook later db.events again db).0 ≡ db
unfolding persist_and_apply_deriv_webhook
known_unchanged later again db h = rw h refl

redelivered_unmoved :
    (now : ℕ) (n : PayoutNotification) (db : Db) (before events : List WebhookEvent)
    (rs : List Redelivery)
    → receive (deriv_event n) before before ≡ received events
    → db.events ≡ mark_processed now "DERIV_PA" n.provider_event_id events
    → All (λ r. r.notification.provider_event_id ≡ n.provider_event_id) rs
    → redeliver_all rs db ≡ db
redelivered_unmoved now n db before events [] h marked same = refl
redelivered_unmoved now n db before events (r ∷ rs) h marked (same, rest) =
    let known =
      ap (λ es. receive (deriv_event r.notification) es es) marked
      ∙ receive_again now (deriv_event n) (deriv_event r.notification) before events h refl same in
    ap (redeliver_all rs) (known_unchanged r.now r.notification db known)
    ∙ redelivered_unmoved now n db before events rs h marked rest

-- A new notification of SUCCESS or FAILED for a payout that is still CREATED is lost for good:
-- neither it nor any number of redeliveries of its event, whatever they say, changes a payout, so
-- that the payout is still found as it was, CREATED.
pub early_result_lost :
    (now : ℕ) (n : PayoutNotification) (db : Db) (payout : Payout) (events : List WebhookEvent)
    (rs : List Redelivery)
    → receive (deriv_event n) db.events db.events ≡ received events
    → find_payout n db ≡ some payout
    → payout.status ≡ created
    → (n.mapped_status ≡ success) ⊎ (n.mapped_status ≡ failed)
    → All (λ r. r.notification.provider_event_id ≡ n.provider_event_id) rs
    → let after = redeliver_all rs (persist_and_apply_deriv_webhook now db.events n db).0 in
      (after.payouts ≡ db.payouts) × (find_payout n after ≡ some payout)
early_result_lost now n db payout events rs h found c early same =
    let marked = mark_processed now "DERIV_PA" n.provider_event_id events in
    let first =
      ap (λ (o : Db × PayoutOutcome). o.0)
        (refused_but_marked now n db payout events h found c early) in
    let whole =
      ap (redeliver_all rs) first
      ∙ redelivered_unmoved now n (record db { events = marked }) db.events events rs h refl same in
    (ap (λ (d : Db). d.payouts) whole, ap (find_payout n) whole ∙ found)

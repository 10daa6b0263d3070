-- ===== src/Webhooks/Payouts/Laws.antt =====
-- What notifications do to the payouts.
use stackaura_checkout_api.Base.{
  ℕ, String, true, none, some, List, [], ◌∷◌, ◌==◌, ◌≡◌, ◌≢◌, refl, ◌∙◌, string_eq, Bool-cases,
  Option-cases, inl, inr, arith,
}
use stackaura_checkout_api.Domain.{
  PayoutStatus, created, pending, success, failed, payout_status_eq,
}
use stackaura_checkout_api.Store.{Payout, WebhookEvent, Db}
use stackaura_checkout_api.Store.Keys.{
  Pointwise, Pointwise-refl, Pointwise-trans, HasKeys, found_only, update_row-Pointwise,
  update_row-HasKeys,
}
use stackaura_checkout_api.Webhooks.Events.{
  Receipt, already_processed, duplicate, received, receive,
}
use stackaura_checkout_api.Webhooks.Payouts.{
  PayoutNotification, deriv_event, with_payout_notification, find_payout, apply_to_payout,
  process_payout, on_payout_receipt, persist_and_apply_deriv_webhook, can_transition_payout_status,
}

-- How far a payout has come.
abbrev pub Reaches : PayoutStatus → PayoutStatus → Type 0
Reaches created t = Unit
Reaches pending t = t ≢ created
Reaches success t = t ≡ success
Reaches failed t = t ≡ failed

-- A failure is recorded only with the status FAILED.
abbrev pub IsClean : Payout → Type 0
IsClean p = p.status ≢ failed → (p.failure_code ≡ none) × (p.failure_message ≡ none)

-- What may become of a payout: it keeps its identity and its amount, and its status goes on.
abbrev pub PayoutEvolves : Payout → Payout → Type 0
PayoutEvolves p q =
    (q.id ≡ p.id)
    × (q.reference ≡ p.reference)
    × (q.merchant_id ≡ p.merchant_id)
    × (q.amount_cents ≡ p.amount_cents)
    × Reaches p.status q.status
    × (IsClean p → IsClean q)

abbrev pub payout_id : Payout → String
payout_id p = p.id

Reaches-refl : (s : PayoutStatus) → Reaches s s
Reaches-refl s = ground arith

Reaches-trans : (s t u : PayoutStatus) → Reaches s t → Reaches t u → Reaches s u
Reaches-trans s t u h k = ground arith

can_transition-Reaches :
    (s t : PayoutStatus) → can_transition_payout_status s t ≡ true → Reaches s t
unfolding can_transition_payout_status
can_transition-Reaches s t h = ground arith

evolves_refl : (p : Payout) → PayoutEvolves p p
evolves_refl p = (refl, refl, refl, refl, Reaches-refl p.status, λ h. h)

evolves_trans : (p q r : Payout) → PayoutEvolves p q → PayoutEvolves q r → PayoutEvolves p r
evolves_trans p q r (a, b, c, d, s, f) (a', b', c', d', s', f') =
    (a' ∙ a, b' ∙ b, c' ∙ c, d' ∙ d, Reaches-trans p.status q.status r.status s s', λ h. f' (f h))

notified-IsClean : (n : PayoutNotification) (p : Payout) → IsClean (with_payout_notification n p)
notified-IsClean n p h = ground arith

-- The payouts after a change, and that their keys stay unique.
abbrev KeptPayouts : Db → Db → Type 0
KeptPayouts db db' = Pointwise PayoutEvolves db.payouts db'.payouts × HasKeys payout_id db'.payouts

kept_refl : (db : Db) → HasKeys payout_id db.payouts → KeptPayouts db db
kept_refl db k = (Pointwise-refl PayoutEvolves db.payouts evolves_refl, k)

apply_found :
    (n : PayoutNotification) (db : Db) (payout : Payout)
    → HasKeys payout_id db.payouts
    → find_payout n db ≡ some payout
    → KeptPayouts db (apply_to_payout n (some payout) db).0
unfolding apply_to_payout
apply_found n db payout k found =
    elim (Bool-cases (can_transition_payout_status payout.status n.mapped_status)) [
      | inl t ↦ rw t (
        update_row-Pointwise payout_id PayoutEvolves (with_payout_notification n) payout db.payouts
            evolves_refl
            (
              refl,
              refl,
              refl,
              refl,
              can_transition-Reaches payout.status n.mapped_status t,
              λ c. notified-IsClean n payout,
            )
            (found_only payout_id (λ (p : Payout). p.reference == n.payout_reference) db.payouts k
              found),
        update_row-HasKeys payout_id payout.id (with_payout_notification n) db.payouts (λ x. refl)
            k,
      )
      | inr f ↦ rw f (kept_refl db k)
    ]

process-KeptPayouts :
    (now : ℕ) (n : PayoutNotification) (db : Db)
    → HasKeys payout_id db.payouts
    → KeptPayouts db (process_payout now n db).0
unfolding process_payout apply_to_payout
process-KeptPayouts now n db k = elim (Option-cases (find_payout n db)) [
  | inl e ↦ rw e (kept_refl db k)
  | inr (payout, e) ↦ rw e (apply_found n db payout k e)
]

receipt-KeptPayouts :
    (now : ℕ) (n : PayoutNotification) (db : Db) (r : Receipt)
    → HasKeys payout_id db.payouts
    → KeptPayouts db (on_payout_receipt now n db r).0
receipt-KeptPayouts now n db already_processed k = kept_refl db k
receipt-KeptPayouts now n db duplicate k = kept_refl db k
receipt-KeptPayouts now n db (received events) k =
    process-KeptPayouts now n (record db { events = events }) k

-- One notification of a payout: its time and what its lookup of events sees.
pub record PayoutArrival : Type 0 where
  pub now : ℕ
  pub snapshot : List WebhookEvent
  pub notification : PayoutNotification

abbrev pub notify : PayoutArrival → Db → Db
notify a db = (persist_and_apply_deriv_webhook a.now a.snapshot a.notification db).0

abbrev pub notify_all : List PayoutArrival → Db → Db
notify_all [] db = db
notify_all (a ∷ as') db = notify_all as' (notify a db)

notify-KeptPayouts :
    (a : PayoutArrival) (db : Db) → HasKeys payout_id db.payouts → KeptPayouts db (notify a db)
unfolding persist_and_apply_deriv_webhook
notify-KeptPayouts a db k =
    receipt-KeptPayouts a.now a.notification db
      (receive (deriv_event a.notification) a.snapshot db.events) k

notify_all-KeptPayouts :
    (as' : List PayoutArrival) (db : Db)
    → HasKeys payout_id db.payouts
    → KeptPayouts db (notify_all as' db)
notify_all-KeptPayouts [] db k = kept_refl db k
notify_all-KeptPayouts (a ∷ as') db k =
    let (first, k1) = notify-KeptPayouts a db k in
    let (rest, k2) = notify_all-KeptPayouts as' (notify a db) k1 in
    (
      Pointwise-trans PayoutEvolves db.payouts (notify a db).payouts
          (notify_all (a ∷ as') db).payouts evolves_trans first rest,
      k2,
    )

-- Whatever notifications of payouts arrive, in whatever order, payouts with unique ids keep their
-- place, id, reference, merchant and amount; no payout returns to CREATED, SUCCESS and FAILED are
-- final; and if failures were recorded only with FAILED, they still are.
pub notify_all-PayoutEvolves :
    (as' : List PayoutArrival) (db : Db)
    → HasKeys payout_id db.payouts
    → Pointwise PayoutEvolves db.payouts (notify_all as' db).payouts
notify_all-PayoutEvolves as' db k = (notify_all-KeptPayouts as' db k).0

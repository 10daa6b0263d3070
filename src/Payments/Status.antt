-- ===== src/Payments/Status.antt =====
-- src/payments/payment-status.transitions.ts, and the maps from payment status to attempt status
-- and event name in the services.
use stackaura_checkout_api.Base.{
  ℕ, ◌<◌, String, Bool, true, Option, none, some, List, [], ◌∷◌, ◌≡◌, refl, ◌==◌, ◌⊎◌, contains,
  if◌then◌else◌, arith, ◌≢◌, ◌∙◌,
}
use stackaura_checkout_api.Domain.{
  PaymentStatus, created, pending, paid, failed, cancelled, refunded, payment_status_eq,
  AttemptStatus,
}

-- `ALLOWED_PAYMENT_TRANSITIONS`
unfoldable pub allowed_payment_transitions : PaymentStatus → List PaymentStatus
allowed_payment_transitions created = pending ∷ paid ∷ failed ∷ cancelled ∷ []
allowed_payment_transitions pending = paid ∷ failed ∷ cancelled ∷ []
allowed_payment_transitions paid = []
allowed_payment_transitions failed = []
allowed_payment_transitions cancelled = []
allowed_payment_transitions refunded = []

unfoldable pub can_transition_payment_status : PaymentStatus → PaymentStatus → Bool
unfolding allowed_payment_transitions
can_transition_payment_status current next =
    if current == next then true else contains (allowed_payment_transitions current) next

-- `mapPaymentStatusToAttemptStatus`
unfoldable pub map_payment_status_to_attempt_status : PaymentStatus → Option AttemptStatus
map_payment_status_to_attempt_status paid = some AttemptStatus.succeeded
map_payment_status_to_attempt_status failed = some AttemptStatus.failed
map_payment_status_to_attempt_status cancelled = some AttemptStatus.cancelled
map_payment_status_to_attempt_status pending = some AttemptStatus.pending
map_payment_status_to_attempt_status _ = none

-- `paymentStatusToWebhookEvent`
unfoldable pub payment_status_to_webhook_event : PaymentStatus → Option String
payment_status_to_webhook_event paid = some "payment_intent.succeeded"
payment_status_to_webhook_event failed = some "payment_intent.failed"
payment_status_to_webhook_event cancelled = some "payment_intent.cancelled"
payment_status_to_webhook_event pending = some "payment_intent.processing"
payment_status_to_webhook_event _ = none

-- How far a payment has come.
abbrev pub stage : PaymentStatus → ℕ
stage created = 0
stage pending = 1
stage _ = 2

abbrev pub IsTerminal : PaymentStatus → Type 0
IsTerminal s = (s ≢ created) × (s ≢ pending)

-- A history of a payment under the table: each entry follows from the one before.
abbrev pub Follows : PaymentStatus → List PaymentStatus → Type 0
Follows s [] = Unit
Follows s (t ∷ ts) = (can_transition_payment_status s t ≡ true) × Follows t ts

abbrev pub last_status : PaymentStatus → List PaymentStatus → PaymentStatus
last_status s [] = s
last_status s (t ∷ ts) = last_status t ts

-- A change of status that the table allows goes strictly up, and starts before a terminal status.
pub can_transition-stage :
    (s t : PaymentStatus) → can_transition_payment_status s t ≡ true → (s ≡ t) ⊎ (stage s < stage t)
unfolding can_transition_payment_status
can_transition-stage s t h = ground arith

pub terminal_stays :
    (s t : PaymentStatus) → IsTerminal s → can_transition_payment_status s t ≡ true → t ≡ s
unfolding can_transition_payment_status
terminal_stays s t k h = ground arith

-- Whatever sequence of allowed changes a payment goes through after a terminal status (any but
-- CREATED and PENDING), it stays at that status.
pub last_status_of_IsTerminal :
    (s : PaymentStatus) (ts : List PaymentStatus)
    → IsTerminal s
    → Follows s ts
    → last_status s ts ≡ s
last_status_of_IsTerminal s [] k h = refl
last_status_of_IsTerminal s (t ∷ ts) k (h, hs) =
    let e = terminal_stays s t k h in last_status_of_IsTerminal t ts (rw e k) hs ∙ e

not_refunded :
    (s t : PaymentStatus) → s ≢ refunded → can_transition_payment_status s t ≡ true → t ≢ refunded
unfolding can_transition_payment_status
not_refunded s t k h = ground arith

-- No sequence of allowed changes makes a payment REFUNDED that is not REFUNDED already.
pub refunded_unreachable :
    (s : PaymentStatus) (ts : List PaymentStatus)
    → s ≢ refunded
    → Follows s ts
    → last_status s ts ≢ refunded
refunded_unreachable s [] k h = k
refunded_unreachable s (t ∷ ts) k (h, hs) = refunded_unreachable t ts (not_refunded s t k h) hs

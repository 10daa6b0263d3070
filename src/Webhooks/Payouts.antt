-- ===== src/Webhooks/Payouts.antt =====
-- src/webhooks/webhooks.service.ts: what a notification of the payout provider does to a payout.
pub mod Laws
pub mod EarlyResults
use stackaura_checkout_api.Base.{
  ℕ, String, Bool, true, false, not, Option, none, some, List, [], ◌∷◌, ◌==◌, ◌/=◌, ◌&&◌, ◌||◌,
  string_eq, find?, if◌then◌else◌, contains, ◌or_else◌,
}
use stackaura_checkout_api.Base.Text.{trim, to_upper, squash, non_blank}
use stackaura_checkout_api.Domain.{
  PayoutStatus, created, pending, success, failed, payout_status_eq,
}
use stackaura_checkout_api.Store.{Payout, WebhookEvent, Db}
use stackaura_checkout_api.Store.Keys.{update_row}
use stackaura_checkout_api.Webhooks.Events.{
  Receipt, already_processed, duplicate, received, receive, mark_processed,
}

-- The status that a word stands for.
payout_word : String → Option PayoutStatus
payout_word s =
    if contains ("PAID" ∷ "SUCCESS" ∷ "SUCCESSFUL" ∷ "COMPLETE" ∷ "COMPLETED" ∷ []) s
    then some success
    else if contains ("PROCESSING" ∷ "PENDING" ∷ "IN_PROGRESS" ∷ "INPROGRESS" ∷ []) s
    then some pending
    else if contains ("FAILED" ∷ "FAILURE" ∷ "ERROR" ∷ "DECLINED" ∷ "REJECTED" ∷ []) s
    then some failed
    else if contains ("CANCELLED" ∷ "CANCELED" ∷ "VOIDED" ∷ "REVERSED" ∷ []) s
    then some failed
    else if contains ("CREATED" ∷ "INITIATED" ∷ "NEW" ∷ []) s
    then some created
    else none

-- `mapDerivPayoutStatus`; the empty word stands for no status.
unfoldable pub map_deriv_payout_status : Option String → Option PayoutStatus
unfolding payout_word
map_deriv_payout_status none = none
map_deriv_payout_status (some s) = payout_word (squash (to_upper (trim s)))

unfoldable pub can_transition_payout_status : PayoutStatus → PayoutStatus → Bool
can_transition_payout_status current next =
    if current == next
    then true
    else if current == created && next == pending
    then true
    else if current == pending && (next == success || next == failed)
    then true
    else false

-- The arguments of `persistAndApplyDerivWebhook`.
pub record PayoutNotification : Type 0 where
  pub provider_event_id : String
  pub event_type : Option String
  pub payout_reference : String
  pub mapped_status : PayoutStatus
  pub provider_ref : Option String
  pub failure_code : Option String
  pub failure_message : Option String
  pub signature : String
  pub payload : String

pub record PayoutOutcome : Type 0 where
  pub deduplicated : Bool
  pub status_changed : Bool
  pub updated_payout : Option Payout

abbrev pub no_change : Bool → PayoutOutcome
no_change b = record { deduplicated = b; status_changed = false; updated_payout = none }

abbrev pub deriv_event : PayoutNotification → WebhookEvent
deriv_event n = record {
  provider = "DERIV_PA";
  provider_event_id = n.provider_event_id;
  event_type = n.event_type;
  payout_reference = some n.payout_reference;
  payload = n.payload;
  signature = some n.signature;
  processed_at = none;
}

-- `args.providerRef ? { providerRef: args.providerRef } : {}`
abbrev kept_ref : Option String → Option String → Option String
kept_ref none old = old
kept_ref (some s) old = (if s == "" then none else some s) or_else old

-- The row that the update writes; its provider column has one value, and is left out of the rows.
abbrev pub with_payout_notification : PayoutNotification → Payout → Payout
with_payout_notification n payout = record payout {
  status = n.mapped_status;
  provider_ref = kept_ref n.provider_ref payout.provider_ref;
  failure_code = if n.mapped_status == failed then n.failure_code else none;
  failure_message = if n.mapped_status == failed then n.failure_message else none;
  raw_provider = some n.payload;
}

abbrev pub find_payout : PayoutNotification → Db → Option Payout
find_payout n db = find? (λ (p : Payout). p.reference == n.payout_reference) db.payouts

-- The part of the transaction that follows the receipt, without the final mark.
unfoldable pub apply_to_payout : PayoutNotification → Option Payout → Db → Db × PayoutOutcome
apply_to_payout n none db = (db, no_change false)
apply_to_payout n (some payout) db =
    let updated = with_payout_notification n payout in
    if not (can_transition_payout_status payout.status n.mapped_status)
    then (db, no_change false)
    else (
      record db {
        payouts =
            update_row (λ (p : Payout). p.id) payout.id (with_payout_notification n) db.payouts;
      },
      record {
        deduplicated = false;
        status_changed = updated.status /= payout.status;
        updated_payout = some updated;
      },
    )

-- The transaction once the event is stored.
unfoldable pub process_payout : ℕ → PayoutNotification → Db → Db × PayoutOutcome
unfolding apply_to_payout
process_payout now n db =
    let (db', outcome) = apply_to_payout n (find_payout n db) db in
    (record db' { events = mark_processed now "DERIV_PA" n.provider_event_id db'.events }, outcome)

abbrev pub on_payout_receipt : ℕ → PayoutNotification → Db → Receipt → Db × PayoutOutcome
on_payout_receipt now n db already_processed = (db, no_change true)
on_payout_receipt now n db duplicate = (db, no_change true)
on_payout_receipt now n db (received events) = process_payout now n (record db { events = events })

-- `snapshot` are the events that the lookup sees.
unfoldable pub persist_and_apply_deriv_webhook :
    ℕ → List WebhookEvent → PayoutNotification → Db → Db × PayoutOutcome
persist_and_apply_deriv_webhook now snapshot n db =
    on_payout_receipt now n db (receive (deriv_event n) snapshot db.events)

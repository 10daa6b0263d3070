-- ===== src/Payments/Initialize.antt =====
-- src/payments/payments.service.ts: the loop over the eligible gateways that opens a provider's
-- checkout for a payment (initializePaymentGatewayWithFallback).
pub mod Laws
pub mod Choice
use stackaura_checkout_api.Base.{
  ℕ, String, Bool, true, false, not, Option, none, some, List, [], ◌∷◌, ◌++◌, ◌==◌, ◌&&◌, ◌||◌, ◌+◌,
  string_eq, update_where, ltb, if◌then◌else◌, head?, last?,
}
use stackaura_checkout_api.Base.Result.{Error, bad_request, message, Result, ok, err}
use stackaura_checkout_api.Domain.{PaymentStatus, AttemptStatus, GatewayProvider, payment_status_eq}
use stackaura_checkout_api.Store.{Payment, Attempt, Db}
use stackaura_checkout_api.Store.Keys.{update_row}
use stackaura_checkout_api.Routing.Decide.{
  Candidate, Decision, SelectionMode, automatic, explicit, Reason,
}
use stackaura_checkout_api.Payments.Failover.{Session, is_open}

-- `buildInitializationFailureRecord`, without its time, its constant stage and the
-- error's name.
pub record FailureRecord : Type 0 where
  pub gateway : GatewayProvider
  pub error_message : String
  pub fallback_to : Option GatewayProvider

-- What `buildRoutingSnapshot` takes over of the loop.
pub record RoutingSnapshot : Type 0 where
  pub selected_gateway : GatewayProvider
  pub routing_reason : List Reason
  pub fallback_count : ℕ
  pub last_fallback : Option FailureRecord
  pub initialization_failures : List FailureRecord

-- The loop's variables.
pub record Progress : Type 0 where
  pub fallback_count : ℕ
  pub initialization_failures : List FailureRecord
  pub last_error : Option Error

-- What the method returns.
pub record Initialization : Type 0 where
  pub gateway : GatewayProvider
  pub session : Session
  pub fallback_count : ℕ
  pub initialization_failures : List FailureRecord

abbrev pub candidate_gateway : List Candidate → Option GatewayProvider
candidate_gateway [] = none
candidate_gateway (c ∷ cs) = some c.gateway

abbrev pub is_automatic : SelectionMode → Bool
is_automatic automatic = true
is_automatic explicit = false

abbrev pub is_some {ℓ} : {A : Type ℓ} → Option A → Bool
is_some none = false
is_some (some a) = true

-- The open attempts of a payment, whatever their gateway, are cancelled.
unfoldable pub cancel_open_attempts : String → List Attempt → List Attempt
cancel_open_attempts payment_id attempts =
    update_where (λ (a : Attempt). a.payment_id == payment_id && is_open a.status)
      (λ a. record a { status = AttemptStatus.cancelled }) attempts

abbrev pub attempt_at : String → String → GatewayProvider → AttemptStatus → String → Attempt
attempt_at id payment_id gateway status redirect_url = record {
  id = id;
  payment_id = payment_id;
  gateway = gateway;
  status = status;
  redirect_url = redirect_url;
}

-- The status that the payment is given, by the one that the caller has read.
abbrev pub initialized_status : PaymentStatus → PaymentStatus
initialized_status status =
    if status == PaymentStatus.created then PaymentStatus.created else PaymentStatus.pending

abbrev pub failure_of : Candidate → List Candidate → Error → FailureRecord
failure_of candidate rest error = record {
  gateway = candidate.gateway;
  error_message = message error;
  fallback_to = candidate_gateway rest;
}

-- The loop's variables after a candidate has failed.
abbrev pub after_failure : Candidate → List Candidate → Error → Progress → Progress
after_failure candidate rest error progress = record {
  fallback_count =
      if is_some (candidate_gateway rest)
      then progress.fallback_count + 1
      else progress.fallback_count;
  initialization_failures =
      progress.initialization_failures ++ failure_of candidate rest error ∷ [];
  last_error = some error;
}

abbrev pub or_none_available : Option Error → Error
or_none_available none = bad_request "No gateway available for initialization"
or_none_available (some e) = e

-- `new_id` is the id that the database gives the next attempt, and `render` the merged JSON of a
-- snapshot; `redirect` is `createGatewayRedirect`.
module _ (redirect : GatewayProvider → Result Session) (new_id : List Attempt → String)
    (render : RoutingSnapshot → String) (payment : Payment) where
  abbrev pub set_payment : (Payment → Payment) → Db → Db
  set_payment f db = record db {
    payments = update_row (λ (p : Payment). p.id) payment.id f db.payments;
  }

  -- The transaction after a session was opened.
  unfoldable pub commit_session : Candidate → Session → Progress → Db → Db
  unfolding cancel_open_attempts
  commit_session candidate session progress db =
      let opened =
        attempt_at (new_id db.attempts) payment.id candidate.gateway AttemptStatus.created
          session.redirect_url in
      let snapshot : RoutingSnapshot = record {
        selected_gateway = candidate.gateway;
        routing_reason = candidate.reason;
        fallback_count = progress.fallback_count;
        last_fallback =
            if ltb 0 progress.fallback_count then last? progress.initialization_failures else none;
        initialization_failures = progress.initialization_failures;
      } in
      set_payment
        (λ (p : Payment). record p {
          gateway = some candidate.gateway;
          gateway_ref = session.external_reference;
          status = initialized_status payment.status;
          raw_gateway = some (render snapshot);
        })
        (record db { attempts = opened ∷ cancel_open_attempts payment.id db.attempts })

  -- The transaction after a candidate has failed; `progress` is that after the failure.
  unfoldable pub record_failure : Candidate → Progress → Db → Db
  record_failure candidate progress db =
      let failed =
        attempt_at (new_id db.attempts) payment.id candidate.gateway AttemptStatus.failed "" in
      let snapshot : RoutingSnapshot = record {
        selected_gateway = candidate.gateway;
        routing_reason = candidate.reason;
        fallback_count = progress.fallback_count;
        last_fallback = last? progress.initialization_failures;
        initialization_failures = progress.initialization_failures;
      } in
      set_payment (λ (p : Payment). record p { raw_gateway = some (render snapshot) })
        (record db { attempts = failed ∷ db.attempts })

  -- The loop, from a candidate on.
  unfoldable pub initialize_from :
      SelectionMode → Bool → Progress → List Candidate → Db → Db × Result Initialization
  unfolding commit_session record_failure
  initialize_from mode fallback progress [] db = (db, err (or_none_available progress.last_error))
  initialize_from mode fallback progress (candidate ∷ rest) db = elim (redirect candidate.gateway) [
    | ok session ↦ (
      commit_session candidate session progress db,
      ok (record {
        gateway = candidate.gateway;
        session = session;
        fallback_count = progress.fallback_count;
        initialization_failures = progress.initialization_failures;
      }),
    )
    | err error ↦
        let progress' = after_failure candidate rest error progress in
        let db' = record_failure candidate progress' db in
        let next = initialize_from mode fallback progress' rest db' in
        if not (is_automatic mode) || not (is_some (candidate_gateway rest)) || not fallback
        then (db', err error)
        else next
  ]

  -- `stored_count` and `stored_failures` are what the payment's JSON column says.
  unfoldable pub initialize_payment_gateway_with_fallback :
      ℕ → List FailureRecord → Bool → Decision → Db → Db × Result Initialization
  initialize_payment_gateway_with_fallback stored_count stored_failures fallback decision db =
      initialize_from decision.selection_mode fallback
        (record {
          fallback_count = stored_count;
          initialization_failures = stored_failures;
          last_error = none;
        })
        decision.eligible_gateways db

-- ===== src/Payments/Failover.antt =====
-- src/payments/payments.service.ts: a payment that is moved on to another gateway
-- (createFailoverAttempt, with resolveNextFailoverDecision and cancelSupersededOpenAttempts).
pub mod Attempts
pub mod Callers
pub mod Laws
use stackaura_checkout_api.Base.{
  ℕ, String, Bool, true, false, not, Option, none, some, List, [], ◌∷◌, ◌++◌, map, ◌==◌, ◌&&◌, ◌||◌,
  string_eq, find?, filter, update_where, if◌then◌else◌,
}
use stackaura_checkout_api.Base.Int.{pos, ℤ}
use stackaura_checkout_api.Base.Result.{Error, bad_request, not_found, Result, ok, err, ◌>>=◌}
use stackaura_checkout_api.Base.Text.{trim, truthy, to_lower, ◌<>◌}
use stackaura_checkout_api.Domain.{
  Env, PaymentStatus, AttemptStatus, GatewayProvider, payment_status_eq, gateway_eq,
}
use stackaura_checkout_api.Store.{Payment, Attempt, Db}
use stackaura_checkout_api.Store.Keys.{update_row}
use stackaura_checkout_api.Gateways.Yoco.{YocoConfig, resolve_yoco_config}
use stackaura_checkout_api.Gateways.Paystack.{PaystackConfig, resolve_paystack_config}
use stackaura_checkout_api.Gateways.Ozow.{OzowConfig, resolve_ozow_config}
use stackaura_checkout_api.Payments.Monetization.{resolve_merchant_plan}
use stackaura_checkout_api.Routing.Readiness.{MerchantGatewayConfig, Request}
use stackaura_checkout_api.Routing.Decide.{auto, RoutingMode, Decision, decide}

-- The merchant's columns that failover reads, its secrets decrypted.
pub record MerchantRow : Type 0 where
  pub config : MerchantGatewayConfig
  pub plan_code : Option String
  pub platform_fee_bps : Option ℤ
  pub platform_fee_fixed_cents : Option ℤ

-- What the payment's `rawGateway` and its latest attempt say: the display name of the gateway that
-- the payment is locked to by an explicit selection, whether a provider's checkout has started, and
-- the request that the checkout was made with.
pub record StoredState : Type 0 where
  pub locked_to : Option String
  pub checkout_started : Bool
  pub customer_email : Option String
  pub payment_method_preference : Option String

-- What `createGatewayRedirect` gives.
pub record Session : Type 0 where
  pub redirect_url : String
  pub external_reference : Option String

-- The `merchantConfig` of the failover.
unfoldable pub failover_merchant : Env → MerchantGatewayConfig → Result MerchantGatewayConfig
failover_merchant env row =
    let ozow_config = resolve_ozow_config env (record {
      ozow_site_code = row.ozow_site_code;
      ozow_private_key = row.ozow_private_key;
      ozow_api_key = row.ozow_api_key;
      ozow_is_test = row.ozow_is_test;
    }) in
    let paystack_config = resolve_paystack_config env (record {
      paystack_secret_key = row.paystack_secret_key;
      paystack_test_mode = row.paystack_test_mode;
    }) in
    resolve_yoco_config env (record {
      yoco_public_key = row.yoco_public_key;
      yoco_secret_key = row.yoco_secret_key;
      yoco_test_mode = row.yoco_test_mode;
    })
    >>= λ yoco_config. ok (record row {
      ozow_site_code = ozow_config.site_code;
      ozow_private_key = ozow_config.private_key;
      ozow_api_key = ozow_config.api_key;
      ozow_is_test = some ozow_config.is_test;
      yoco_public_key = yoco_config.public_key;
      yoco_secret_key = yoco_config.secret_key;
      yoco_test_mode = some yoco_config.test_mode;
      paystack_secret_key = paystack_config.secret_key;
      paystack_test_mode = some paystack_config.test_mode;
    })

abbrev pub plan_code_or_growth : Option String → String
plan_code_or_growth none = "growth"
plan_code_or_growth (some s) = if truthy (trim s) then to_lower (trim s) else "growth"

abbrev pub fallback_enabled : Env → MerchantRow → Bool
fallback_enabled env row =
    (resolve_merchant_plan env (record {
      merchant_plan_code = some (plan_code_or_growth row.plan_code);
      merchant_platform_fee_bps = row.platform_fee_bps;
      merchant_platform_fee_fixed_cents = row.platform_fee_fixed_cents;
    })).routing_features.fallback

abbrev pub attempts_of : Payment → List Attempt → List Attempt
attempts_of payment attempts = filter (λ (a : Attempt). a.payment_id == payment.id) attempts

abbrev listed : Option GatewayProvider → List GatewayProvider
listed none = []
listed (some g) = g ∷ []

-- The gateways that were tried, in the order of `attempted`; only what it contains matters.
abbrev pub attempted : Payment → List Attempt → List GatewayProvider
attempted payment attempts =
    map (λ (a : Attempt). a.gateway) (attempts_of payment attempts) ++ listed payment.gateway

unfoldable pub resolve_next_failover_decision :
    Env → MerchantGatewayConfig → StoredState → Payment → List Attempt → Result Decision
resolve_next_failover_decision env merchant stored payment attempts =
    decide env auto RoutingMode.failover_priority stored.payment_method_preference (record {
      merchant = merchant;
      excluded = attempted payment attempts;
      amount_cents = some (pos payment.amount_cents);
      currency = some payment.currency;
      customer_email = stored.customer_email;
    })

-- The failover that is to be made.
pub record Failover : Type 0 where
  pub payment : Payment
  pub gateway : GatewayProvider
  pub session : Session

-- `if (args.failSilently) return null; throw error`
abbrev pub stop : Bool → Error → Result (Option Failover)
stop silently e = if silently then ok none else err e

-- The call of the routing engine and of the gateway; `redirect` is `createGatewayRedirect`.
unfoldable pub choose_gateway :
    Env
    → (GatewayProvider → Result Session)
    → MerchantGatewayConfig
    → StoredState
    → Payment
    → List Attempt
    → Result (Option Failover)
choose_gateway env redirect merchant stored payment attempts =
    resolve_next_failover_decision env merchant stored payment attempts >>= λ decision.
    redirect decision.selected_gateway >>= λ session.
    ok (some (record { payment = payment; gateway = decision.selected_gateway; session = session }))

abbrev pub is_locked : Option String → Bool
is_locked none = false
is_locked (some name) = true

abbrev locked_message : Option String → String
locked_message none = ""
locked_message (some name) =
    "Automatic failover is disabled because this payment is locked to " <> name

-- The guards on the payment that was found.
unfoldable pub check_failover :
    Env
    → (GatewayProvider → Result Session)
    → Bool
    → MerchantRow
    → StoredState
    → List Attempt
    → Option Payment
    → Result (Option Failover)
check_failover env redirect silently row stored attempts none =
    stop silently (not_found "Payment not found")
check_failover env redirect silently row stored attempts (some payment) =
    if payment.status == PaymentStatus.paid
    then stop silently (bad_request "Payment is already paid")
    else if is_locked stored.locked_to
    then stop silently (bad_request (locked_message stored.locked_to))
    else if stored.checkout_started
    then stop silently
        (bad_request "Fallback is unavailable after provider checkout has already started")
    else (failover_merchant env row.config >>= λ merchant.
        if fallback_enabled env row
        then choose_gateway env redirect merchant stored payment attempts
        else stop silently (bad_request "Fallback is not enabled for this plan"))

-- The payment with a reference, and of a merchant if one is given.
abbrev of_merchant : Option String → Payment → Bool
of_merchant none p = true
of_merchant (some m) p = not (truthy m) || p.merchant_id == m

abbrev pub find_for_failover : String → Option String → Db → Option Payment
find_for_failover reference merchant_id db =
    find? (λ (p : Payment). p.reference == trim reference && of_merchant merchant_id p) db.payments

unfoldable pub plan_failover :
    Env
    → (GatewayProvider → Result Session)
    → Bool
    → MerchantRow
    → StoredState
    → String
    → Option String
    → Db
    → Result (Option Failover)
plan_failover env redirect silently row stored reference merchant_id db =
    if truthy (trim reference)
    then check_failover env redirect silently row stored db.attempts
        (find_for_failover reference merchant_id db)
    else stop silently (bad_request "reference is required")

abbrev pub is_open : AttemptStatus → Bool
is_open AttemptStatus.created = true
is_open AttemptStatus.pending = true
is_open _ = false

-- The attempts that a new gateway supersedes.
abbrev pub is_superseded : String → GatewayProvider → Attempt → Bool
is_superseded payment_id next a =
    a.payment_id == payment_id && not (a.gateway == next) && is_open a.status

unfoldable pub cancel_superseded_open_attempts :
    String → GatewayProvider → List Attempt → List Attempt
cancel_superseded_open_attempts payment_id next attempts =
    update_where (is_superseded payment_id next)
      (λ a. record a { status = AttemptStatus.cancelled }) attempts

abbrev pub new_attempt : String → Failover → Attempt
new_attempt id f = record {
  id = id;
  payment_id = f.payment.id;
  gateway = f.gateway;
  status = AttemptStatus.created;
  redirect_url = f.session.redirect_url;
}

-- The transaction; `raw` is the merged `rawGateway`.
unfoldable pub commit_failover : String → String → Failover → Db → Db
unfolding cancel_superseded_open_attempts
commit_failover id raw f db = record db {
  attempts = new_attempt id f ∷ cancel_superseded_open_attempts f.payment.id f.gateway db.attempts;
  payments =
      update_row (λ (p : Payment). p.id) f.payment.id
        (λ (p : Payment). record p {
          gateway = some f.gateway;
          gateway_ref = f.session.external_reference;
          status = PaymentStatus.pending;
          raw_gateway = some raw;
        })
        db.payments;
}

abbrev pub carry_out :
    String → String → Db → Result (Option Failover) → Db × Result (Option Attempt)
carry_out id raw db (err e) = (db, err e)
carry_out id raw db (ok none) = (db, ok none)
carry_out id raw db (ok (some f)) = (commit_failover id raw f db, ok (some (new_attempt id f)))

-- `id` is the one that the database gives the attempt.
unfoldable pub create_failover_attempt :
    Env
    → (GatewayProvider → Result Session)
    → String
    → String
    → Bool
    → MerchantRow
    → StoredState
    → String
    → Option String
    → Db
    → Db × Result (Option Attempt)
create_failover_attempt env redirect id raw silently row stored reference merchant_id db =
    carry_out id raw db (plan_failover env redirect silently row stored reference merchant_id db)

-- ===== src/Payments/Hosted.antt =====
-- src/payments/payments.service.ts: a customer who goes on from the hosted checkout page to a
-- provider (continueHostedCheckout).
pub mod Laws
use stackaura_checkout_api.Base.{
  ℕ, String, Bool, true, false, not, Option, none, some, List, [], ◌∷◌, ◌==◌, ◌&&◌, ◌||◌, ltb,
  string_eq, find?, head?, if◌then◌else◌, ◌otherwise◌,
}
use stackaura_checkout_api.Base.Int.{ℤ, pos}
use stackaura_checkout_api.Base.Text.{trim, truthy, ◌<>◌}
use stackaura_checkout_api.Base.Result.{
  Error, bad_request, not_found, Result, ok, err, ◌>>=◌, ◌>>◌, require,
}
use stackaura_checkout_api.Domain.{
  Env, PaymentStatus, payment_status_eq, GatewayProvider, gateway_eq,
}
use stackaura_checkout_api.Store.{Payment, Attempt, Db}
use stackaura_checkout_api.Payments.Failover.{MerchantRow, Session, failover_merchant, attempts_of}
use stackaura_checkout_api.Payments.Initialize.{
  FailureRecord, RoutingSnapshot, Initialization, initialize_payment_gateway_with_fallback,
}
use stackaura_checkout_api.Payments.Monetization.{PlanFeatures, MerchantPlan, resolve_merchant_plan}
use stackaura_checkout_api.Payments.Failover.{plan_code_or_growth}
use stackaura_checkout_api.Payments.CreateRequest.{
  parse_requested_gateway, assert_routing_plan_allows,
}
use stackaura_checkout_api.Payments.Create.{PaymentDetails, found_merchant}
use stackaura_checkout_api.Routing.Readiness.{MerchantGatewayConfig}
use stackaura_checkout_api.Routing.Decide.{
  RequestedGateway, only, auto, unspecified, RoutingMode, Decision, decide,
}

-- What the JSON of `rawGateway` says (extractStoredRoutingState, extractCheckoutRequestContext).
pub record StoredCheckout : Type 0 where
  pub requested_gateway : RequestedGateway
  pub fallback_count : ℕ
  pub initialization_failures : List FailureRecord
  pub payment_method_preference : Option String

-- The redirection that a payment has already: a form, as its JSON text, or a URL.
pub record RedirectState : Type 0 where
  pub redirect_form : Option String
  pub redirect_url : Option String

-- What a call depends on: the environment, the merchants' rows with their secrets decrypted, the
-- provider's client, the merged JSON of a snapshot, the id of the next attempt, the time, what the
-- JSON column says, and the redirection that it gives together with the latest attempt's URL.
pub record Hosting : Type 0 where
  pub env : Env
  pub merchant_of : String → Option MerchantRow
  pub redirect : MerchantGatewayConfig → Payment → GatewayProvider → Result Session
  pub render : RoutingSnapshot → String
  pub new_attempt_id : List Attempt → String
  pub now : ℕ
  pub stored : Option String → StoredCheckout
  pub redirect_state : Option String → Option String → RedirectState

-- What the call returns: the redirection that the payment has already, or a new one.
pub data Continued : Type 0 where
  reused : Payment → GatewayProvider → Continued
  opened : Payment → Initialization → Continued

unfoldable pub coerce_checkout_selectable_gateway : RequestedGateway → RequestedGateway
coerce_checkout_selectable_gateway (only GatewayProvider.yoco) = only GatewayProvider.yoco
coerce_checkout_selectable_gateway (only GatewayProvider.ozow) = only GatewayProvider.ozow
coerce_checkout_selectable_gateway (only GatewayProvider.paystack) = only GatewayProvider.paystack
coerce_checkout_selectable_gateway _ = auto

-- A request that the page offers, and `none` where none was made.
abbrev selectable : RequestedGateway → Result (Option RequestedGateway)
selectable unspecified = ok none
selectable auto = ok (some auto)
selectable (only GatewayProvider.yoco) = ok (some (only GatewayProvider.yoco))
selectable (only GatewayProvider.ozow) = ok (some (only GatewayProvider.ozow))
selectable (only GatewayProvider.paystack) = ok (some (only GatewayProvider.paystack))
selectable (only g) = err (bad_request "gateway must be one of AUTO, YOCO, OZOW, PAYSTACK")

unfoldable pub parse_checkout_selectable_gateway : Option String → Result (Option RequestedGateway)
parse_checkout_selectable_gateway value = parse_requested_gateway value >>= selectable

abbrev pub same_request : RequestedGateway → RequestedGateway → Bool
same_request (only g) (only h) = g == h
same_request auto auto = true
same_request unspecified unspecified = true
same_request _ _ = false

abbrev pub is_auto : RequestedGateway → Bool
is_auto auto = true
is_auto _ = false

-- The columns of a payment that the page reads; they stand in two lists, joined by the payment's id.
pub record HostedPayment : Type 0 where
  pub payment : Payment
  pub customer_email : Option String

abbrev with_details : PaymentDetails → Option Payment → Result HostedPayment
with_details d none = err (not_found "Checkout session not found or expired")
with_details d (some p) = ok (record { payment = p; customer_email = d.customer_email })

abbrev join_payment : List Payment → Option PaymentDetails → Result HostedPayment
join_payment payments none = err (not_found "Checkout session not found or expired")
join_payment payments (some d) =
    with_details d (find? (λ (p : Payment). p.id == d.payment_id) payments)

-- `gatewayDisplayName` of a gateway that a checkout can be locked to.
abbrev gateway_display_name : RequestedGateway → String
gateway_display_name (only GatewayProvider.yoco) = "Yoco"
gateway_display_name (only GatewayProvider.ozow) = "Ozow"
gateway_display_name (only GatewayProvider.paystack) = "Paystack"
gateway_display_name (only GatewayProvider.payfast) = "PayFast"
gateway_display_name auto = "Auto"
gateway_display_name _ = "Stackaura"

abbrev at : GatewayProvider → Option GatewayProvider → Bool
at g none = false
at g (some h) = h == g

abbrev redirect_of : Option Attempt → Option String
redirect_of none = none
redirect_of (some a) = some a.redirect_url

abbrev has_form : Option String → Bool
has_form none = false
has_form (some form) = true

abbrev has_url : Option String → Bool
has_url none = false
has_url (some url) = truthy url

abbrev is_redirected : RedirectState → Bool
is_redirected state = has_form state.redirect_form || has_url state.redirect_url

-- What is to be continued.
pub record Continuation : Type 0 where
  pub payment : Payment
  pub merchant : MerchantGatewayConfig
  pub plan : PlanFeatures
  pub decision : Decision

module _ (host : Hosting) where
  unfoldable pub get_hosted_checkout_payment_record :
      String → List PaymentDetails → List Payment → Result HostedPayment
  get_hosted_checkout_payment_record checkout_token_plain details payments =
      let token = trim checkout_token_plain in
      require (truthy token) (bad_request "checkoutToken is required")
      >> join_payment payments (
          find? (λ (d : PaymentDetails). d.checkout_token == token && ltb host.now d.expires_at)
            details)

  abbrev pub features_of : MerchantRow → PlanFeatures
  features_of row =
      (resolve_merchant_plan host.env (record {
        merchant_plan_code = some (plan_code_or_growth row.plan_code);
        merchant_platform_fee_bps = row.platform_fee_bps;
        merchant_platform_fee_fixed_cents = row.platform_fee_fixed_cents;
      })).routing_features

  -- The part of the call that reads, in the order of its checks.
  unfoldable pub plan_checkout :
      String → Option String → List PaymentDetails → List Payment → Result Continuation
  plan_checkout checkout_token gateway_plain details payments =
      get_hosted_checkout_payment_record checkout_token details payments >>= λ hosted.
      let payment = hosted.payment in
      found_merchant (host.merchant_of payment.merchant_id) >>= λ row.
      failover_merchant host.env row.config >>= λ merchant.
      let state = host.stored payment.raw_gateway in
      let locked = coerce_checkout_selectable_gateway state.requested_gateway in
      parse_checkout_selectable_gateway gateway_plain >>= λ wish.
      let requested = wish otherwise locked in
      require (is_auto locked || same_request requested locked)
        (bad_request ("This checkout is locked to " <> gateway_display_name locked))
      >> ((if is_auto locked then assert_routing_plan_allows requested (features_of row) else ok tt)
          >> (require (not (payment.status == PaymentStatus.paid))
                (bad_request "Payment is already paid")
              >> (decide host.env requested RoutingMode.strict_priority
                    state.payment_method_preference
                    (record {
                      merchant = merchant;
                      excluded = [];
                      amount_cents = some (pos payment.amount_cents);
                      currency = some payment.currency;
                      customer_email = hosted.customer_email;
                    })
                  >>= λ decision. ok (record {
                    payment = payment;
                    merchant = merchant;
                    plan = features_of row;
                    decision = decision;
                  }))))

  abbrev pub continue_initialized : Payment → Db × Result Initialization → Db × Result Continued
  continue_initialized payment (db, err e) = (db, err e)
  continue_initialized payment (db, ok i) = (db, ok (opened payment i))

  abbrev pub has_session : Continuation → List Attempt → Bool
  has_session c attempts =
      at c.decision.selected_gateway c.payment.gateway
      && is_redirected (
          host.redirect_state c.payment.raw_gateway
            (redirect_of (head? (attempts_of c.payment attempts))))

  abbrev pub initialize_again : Continuation → Db → Db × Result Initialization
  initialize_again c db =
      let state = host.stored c.payment.raw_gateway in
      initialize_payment_gateway_with_fallback (host.redirect c.merchant c.payment)
        host.new_attempt_id host.render c.payment state.fallback_count state.initialization_failures
        c.plan.fallback c.decision db

  abbrev pub continue_planned : Result Continuation → Db → Db × Result Continued
  continue_planned (err e) db = (db, err e)
  continue_planned (ok c) db =
      if has_session c db.attempts
      then (db, ok (reused c.payment c.decision.selected_gateway))
      else continue_initialized c.payment (initialize_again c db)

  unfoldable pub continue_hosted_checkout :
      String → Option String → List PaymentDetails → Db → Db × Result Continued
  continue_hosted_checkout checkout_token gateway_plain details db =
      continue_planned (plan_checkout checkout_token gateway_plain details db.payments) db

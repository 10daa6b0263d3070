-- ===== src/Payments/Create/Accepted.antt =====
-- What a request that is carried out has passed.
use mathlib.Core.Path.{subst}
use stackaura_checkout_api.Base.{
  ℕ, String, Bool, true, false, not, some, List, [], ◌≡◌, refl, ◌==◌, string_eq, any, arith,
}
use stackaura_checkout_api.Base.Int.{pos}
use stackaura_checkout_api.Base.Result.{ok, of_ok, >>=-eq-ok, >>-eq-ok, require_inv}
use stackaura_checkout_api.Store.{Payment}
use stackaura_checkout_api.Payments.Failover.{MerchantRow, failover_merchant}
use stackaura_checkout_api.Payments.Create.{
  Surroundings, minutes_of, Prepared, found_merchant, prepare, new_payment, breakdown_of, plan_of,
  currency_of,
}
use stackaura_checkout_api.Payments.CreateRequest.{
  assert_routing_plan_allows, CreatePaymentDto, parse_positive_int, parse_requested_gateway,
}
use stackaura_checkout_api.Routing.Readiness.{MerchantGatewayConfig, Request}
use stackaura_checkout_api.Routing.Decide.{RequestedGateway, RoutingMode, decide}

false_of_not : (b : Bool) → not b ≡ true → b ≡ false
false_of_not b h = ground arith

module _ (around : Surroundings) where
  -- The request to the routing engine.
  abbrev pub routed : CreatePaymentDto → MerchantRow → MerchantGatewayConfig → ℕ → Request
  routed dto row merchant base = record {
    merchant = merchant;
    excluded = [];
    amount_cents = some (pos (breakdown_of around base row).charge_amount_cents);
    currency = some (currency_of around dto);
    customer_email = dto.customer_email;
  }

  -- What a request that is carried out has passed, and the row that it creates.
  pub record IsPrepared (m : String) (dto : CreatePaymentDto) (payments : List Payment)
      (ready : Prepared) : Type 0 where
    pub base : ℕ
    pub row : MerchantRow
    pub requested : RequestedGateway
    pub amount : parse_positive_int "amountCents" dto.amount_cents ≡ ok base
    pub merchant : found_merchant (around.merchant_of m) ≡ ok row
    pub configured : failover_merchant around.env row.config ≡ ok ready.merchant
    pub minutes : ℕ
    pub timed : minutes_of around dto ≡ ok minutes
    pub gateway : parse_requested_gateway dto.gateway ≡ ok requested
    pub decided :
        decide around.env requested RoutingMode.strict_priority dto.payment_method_preference
          (routed dto row ready.merchant base)
        ≡ ok ready.decision
    pub payment :
        ready.payment
        ≡ new_payment around m dto payments (breakdown_of around base row) ready.decision
    pub allowed : assert_routing_plan_allows requested (plan_of around row).routing_features ≡ ok tt
    pub plan : ready.plan ≡ (plan_of around row).routing_features
    pub fresh : any (λ (p : Payment). p.reference == ready.payment.reference) payments ≡ false

  pub prepare-IsPrepared :
      (m : String) (dto : CreatePaymentDto) (payments : List Payment) (ready : Prepared)
      → prepare around m dto payments ≡ ok ready
      → IsPrepared m dto payments ready
  unfolding prepare
  prepare-IsPrepared m dto payments ready e =
      let (base, amount, e1) = >>=-eq-ok (parse_positive_int "amountCents" dto.amount_cents) _ e in
      let (row, merchant, e2) = >>=-eq-ok (found_merchant (around.merchant_of m)) _ e1 in
      let (config, configured, e3) = >>=-eq-ok (failover_merchant around.env row.config) _ e2 in
      let (minutes, timed, e4) = >>=-eq-ok (minutes_of around dto) _ e3 in
      let (requested, gateway, e5) = >>=-eq-ok (parse_requested_gateway dto.gateway) _ e4 in
      let (allowed, e6) =
        >>-eq-ok (assert_routing_plan_allows requested (plan_of around row).routing_features) _
          e5 in
      let (decision, decided, e7) =
        >>=-eq-ok
          (decide around.env requested RoutingMode.strict_priority dto.payment_method_preference
            (routed dto row config base))
          _ e6 in
      let (fresh, e8) = require_inv _ _ _ e7 in
      let parts : Prepared = record {
        payment = new_payment around m dto payments (breakdown_of around base row) decision;
        details = _;
        merchant = config;
        plan = (plan_of around row).routing_features;
        decision = decision;
      } in
      let same : parts ≡ ready = of_ok e8 in
      subst (IsPrepared m dto payments) same (record {
        base = base;
        row = row;
        requested = requested;
        amount = amount;
        merchant = merchant;
        configured = configured;
        minutes = minutes;
        timed = timed;
        gateway = gateway;
        allowed = allowed;
        decided = decided;
        payment = refl;
        plan = refl;
        fresh = false_of_not _ fresh;
      })

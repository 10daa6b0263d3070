-- ===== src/Payments/Create/Outcome.antt =====
-- What a created payment costs, which gateway it is at, and a creation whose initialization fails.
use mathlib.Core.Path.{subst}
use stackaura_checkout_api.Base.{
  ℕ, String, true, Option, none, some, List, [], ◌≡◌, refl, sym, ap, ◌∙◌, ◌&&◌, ◌+◌, ◌<◌, string_eq,
  ltb, find?, Bool-cases, inl, inr, arith,
}
use stackaura_checkout_api.Base.Int.{ℤ, pos_part}
use stackaura_checkout_api.Base.Text.{trim}
use stackaura_checkout_api.Base.Result.{Result, ok, of_ok}
use stackaura_checkout_api.Domain.{GatewayProvider}
use stackaura_checkout_api.Store.{Payment, Db, LedgerEntry}
use stackaura_checkout_api.Payments.Monetization.{compute_platform_fee_breakdown, PlanFeatures}
use stackaura_checkout_api.Payments.Monetization.Laws.{breakdown_exact}
use stackaura_checkout_api.Payments.Ledger.{LedgerArgs, write_successful_payment_ledger}
use stackaura_checkout_api.Payments.Ledger.Laws.{with_amounts, write_accepts_breakdown}
use stackaura_checkout_api.Payments.Failover.{MerchantRow, failover_merchant}
use stackaura_checkout_api.Payments.Initialize.{
  Initialization, initialize_payment_gateway_with_fallback,
}
use stackaura_checkout_api.Payments.Initialize.Choice.{opens, chosen, decide-initialize}
use stackaura_checkout_api.Payments.Create.{
  with_row, found_merchant, Surroundings, State, created, initialize, create_payment, plan_of,
}
use stackaura_checkout_api.Payments.CreateRequest.{
  CreatePaymentDto, parse_positive_int, parse_requested_gateway,
}
use stackaura_checkout_api.Payments.Create.Laws.{create-HasCreated}
use stackaura_checkout_api.Payments.Create.Accepted.{routed}
use stackaura_checkout_api.Routing.Readiness.{MerchantGatewayConfig}
use stackaura_checkout_api.Routing.Decide.{RequestedGateway, RoutingMode}
use stackaura_checkout_api.Routing.Decide.Laws.{IsAutomatic, is_ready, rail_order}

-- The amount that `parsePositiveInt` lets through is above 0.
parse_positive_int_inv :
    (field : String) (amount : Option ℤ) (base : ℕ)
    → parse_positive_int field amount ≡ ok base
    → (0 < base) × ((n : ℤ) × (amount ≡ some n) × (pos_part n ≡ base))
unfolding parse_positive_int
parse_positive_int_inv field none base e = absurd (cc)
parse_positive_int_inv field (some n) base e = elim (Bool-cases (ltb 0 (pos_part n))) [
  | inl t ↦
      let e' : ok (pos_part n) ≡ ok base = rw t at e in
      let same : pos_part n ≡ base = cc in (ground (arith, t, same), (n, refl, same))
  | inr f ↦ let e' = rw f at e in absurd (cc)
]

-- A price that the ledger accepts: the merchant's part is the amount that was asked for, the charge
-- is that and the fee, and the rows of the payment are written whatever the ledger holds.
abbrev pub IsPriced : Option ℤ → Payment → Type 0
IsPriced amount p =
    ((n : ℤ) × (amount ≡ some n) × (pos_part n ≡ p.merchant_net_cents))
    × (p.amount_cents ≡ p.merchant_net_cents + p.platform_fee_cents)
    × ((ledger : List LedgerEntry) (args : LedgerArgs)
        → (rows : List LedgerEntry) × (write_successful_payment_ledger ledger
              (with_amounts args p.amount_cents p.platform_fee_cents p.merchant_net_cents)
            ≡ ok rows))

module _ (around : Surroundings) where
  -- A payment that was created is charged at the amount that was asked for and the platform's fee on
  -- top of it, of which the merchant nets the whole amount that was asked for, and the ledger will
  -- accept it as it stands when it is paid.
  pub create-IsPriced :
      (m : String) (dto : CreatePaymentDto) (key : Option String) (st st' : State) (p : Payment)
      (i : Initialization)
      → create_payment around m dto key st ≡ (st', ok (created p i))
      → IsPriced dto.amount_cents p
  unfolding compute_platform_fee_breakdown
  create-IsPriced m dto key st st' p i h =
      let c = create-HasCreated around m dto key st st' p i h in
      let ready = c.prepared in
      let (positive, (n, amount, same)) =
        parse_positive_int_inv _ dto.amount_cents ready.base ready.amount in
      let policy = (plan_of around ready.row).fee_policy in
      let (charge, net, _, _) = breakdown_exact ready.base policy in
      subst (IsPriced dto.amount_cents) (sym ready.payment ∙ c.row) (
        (n, amount, same),
        charge,
        (λ ledger args. (_, write_accepts_breakdown ledger args ready.base policy positive)),
      )

  -- The gateway of the payment is the first of the routing order, on the merchant's settings as the
  -- environment completes them, that is ready and opens a session for the payment.
  abbrev pub IsFirst : CreatePaymentDto → MerchantRow → Payment → GatewayProvider → Type 0
  IsFirst dto row p g =
      (merchant : MerchantGatewayConfig) × (base : ℕ) × (failover_merchant around.env row.config
        ≡ ok merchant)
      × (parse_positive_int "amountCents" dto.amount_cents ≡ ok base)
      × (let request = routed around dto row merchant base in
          some g
          ≡ find? (λ g. is_ready around.env request g && opens (around.redirect dto merchant p) g)
              (rail_order around.env RoutingMode.strict_priority dto.payment_method_preference
                request))

  -- A payment that was created without asking for a gateway, for a merchant whose plan falls back, is
  -- at the first gateway of the engine's own order (`rail_order`, whatever the merchant's
  -- `gateway_order` says) that is ready and opens a session.
  pub create-IsFirst :
      (m : String) (dto : CreatePaymentDto) (key : Option String) (st st' : State) (p : Payment)
      (i : Initialization) (row : MerchantRow) (requested : RequestedGateway)
      → create_payment around m dto key st ≡ (st', ok (created p i))
      → around.merchant_of (trim m) ≡ some row
      → (plan_of around row).routing_features.fallback ≡ true
      → parse_requested_gateway dto.gateway ≡ ok requested
      → IsAutomatic requested
      → IsFirst dto row p i.gateway
  create-IsFirst m dto key st st' p i row requested h known_row falls_back asked automatic =
      let c = create-HasCreated around m dto key st st' p i h in
      let ready = c.ready in
      let same_row : row ≡ c.prepared.row =
        of_ok (sym (ap found_merchant known_row) ∙ c.prepared.merchant) in
      let same_request : requested ≡ c.prepared.requested =
        of_ok (sym asked ∙ c.prepared.gateway) in
      let fallback : true ≡ ready.plan.fallback =
        sym falls_back
        ∙ ap (λ (r : MerchantRow). (plan_of around r).routing_features.fallback) same_row
        ∙ sym (ap (λ (f : PlanFeatures). f.fallback) c.prepared.plan) in
      let request = routed around dto c.prepared.row ready.merchant c.prepared.base in
      let first =
        decide-initialize around.env RoutingMode.strict_priority dto.payment_method_preference
          request c.prepared.requested ready.decision
          (around.redirect dto ready.merchant ready.payment) around.new_attempt_id around.render
          ready.payment (with_row around ready st.db) (subst IsAutomatic same_request automatic)
          c.prepared.decided in
      let taken : some i.gateway ≡ chosen (initialize around dto ready st.db).1 =
        sym (ap (λ (o : Db × Result Initialization). chosen o.1) c.initialized) in
      let falling : chosen (initialize around dto ready st.db).1 ≡ _ =
        sym (
          ap
            (λ b.
              chosen
                (initialize_payment_gateway_with_fallback
                  (around.redirect dto ready.merchant ready.payment) around.new_attempt_id
                  around.render ready.payment 0 [] b ready.decision
                  (with_row around ready st.db)).1)
            fallback)
        ∙ first in
      subst (λ (r : MerchantRow). IsFirst dto r p i.gateway) (sym same_row)
        (subst (λ (q : Payment). IsFirst dto c.prepared.row q i.gateway) c.row
          (
            ready.merchant,
            c.prepared.base,
            c.prepared.configured,
            c.prepared.amount,
            taken ∙ falling,
          ))

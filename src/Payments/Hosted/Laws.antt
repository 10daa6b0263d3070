-- ===== src/Payments/Hosted/Laws.antt =====
-- What a continued checkout has passed, where it leads, and what it does to the payment's row.
use mathlib.Core.Path.{subst}
use text.Mathlib.TextEquality.{eq_iff}
use stackaura_checkout_api.Base.{
  String, Bool, true, false, not, Option, none, some, List, [], ◌∷◌, ◌≡◌, refl, sym, ap, ◌∙◌, ◌==◌,
  ◌||◌, string_eq, if◌then◌else◌, find?, find?-sound, Bool-cases, Option-cases, inl, inr, arith,
  ◌otherwise◌,
}
use stackaura_checkout_api.Base.Int.{pos}
use stackaura_checkout_api.Base.Text.{trim, truthy}
use stackaura_checkout_api.Base.Result.{
  bad_request, Result, ok, err, of_ok, >>=-eq-ok, >>-eq-ok, require, require_inv,
}
use stackaura_checkout_api.Domain.{
  PaymentStatus, payment_status_eq, GatewayProvider, gateway_eq, gateway_beq_iff,
}
use stackaura_checkout_api.Store.{Payment, Db}
use stackaura_checkout_api.Payments.Failover.{failover_merchant}
use stackaura_checkout_api.Payments.Failover.Attempts.{open_attempts}
use stackaura_checkout_api.Payments.Initialize.{Initialization, initialized_status}
use stackaura_checkout_api.Payments.Initialize.Laws.{row_of, HasOutcome, initialize-HasOutcome}
use stackaura_checkout_api.Payments.Initialize.Choice.{
  opens, tried, chosen, gateways, initialize-chosen,
}
use stackaura_checkout_api.Payments.CreateRequest.{assert_routing_plan_allows}
use stackaura_checkout_api.Payments.Create.{PaymentDetails, found_merchant}
use stackaura_checkout_api.Payments.Hosted.{
  Hosting, Continued, reused, opened, HostedPayment, Continuation, with_details, join_payment,
  coerce_checkout_selectable_gateway, parse_checkout_selectable_gateway, same_request, is_auto,
  features_of, get_hosted_checkout_payment_record, plan_checkout, continue_initialized, has_session,
  initialize_again, continue_planned, continue_hosted_checkout,
}
use stackaura_checkout_api.Routing.Readiness.{Request}
use stackaura_checkout_api.Routing.Decide.{
  RequestedGateway, only, auto, unspecified, SelectionMode, automatic, explicit, RoutingMode,
  decide,
}
use stackaura_checkout_api.Routing.Decide.Laws.{decide_explicit_lem}

module _ (host : Hosting) where
  abbrev pub locked_to : Payment → RequestedGateway
  locked_to p = coerce_checkout_selectable_gateway (host.stored p.raw_gateway).requested_gateway

  -- What a checkout that may be continued has passed.
  pub record IsPlanned (payments : List Payment) (c : Continuation) : Type 0 where
    pub requested : RequestedGateway
    pub request : Request
    pub method : Option String
    pub row : row_of c.payment.id payments ≡ some c.payment
    pub allowed :
        (is_auto (locked_to c.payment) || same_request requested (locked_to c.payment)) ≡ true
    pub unpaid : (c.payment.status == PaymentStatus.paid) ≡ false
    pub decided :
        decide host.env requested RoutingMode.strict_priority method request ≡ ok c.decision

  join_payment_inv :
      (payments : List Payment) (o : Option PaymentDetails) (h : HostedPayment)
      → join_payment payments o ≡ ok h
      → row_of h.payment.id payments ≡ some h.payment
  join_payment_inv payments none h e = absurd (cc)
  join_payment_inv payments (some d) h e =
      elim (Option-cases (find? (λ (p : Payment). p.id == d.payment_id) payments)) [
        | inl missing ↦ let bad = sym (ap (with_details d) missing) ∙ e in absurd (cc)
        | inr (p, found) ↦
            let whole = of_ok (sym (ap (with_details d) found) ∙ e) in
            let same : p ≡ h.payment = ap (λ (x : HostedPayment). x.payment) whole in
            let its : p.id ≡ d.payment_id =
              (eq_iff p.id d.payment_id).0
                (find?-sound (λ (q : Payment). q.id == d.payment_id) payments found) in
            subst (λ (q : Payment). row_of q.id payments ≡ some q) same
              (ap (λ i. row_of i payments) its ∙ found)
      ]

  false_of_not : (b : Bool) → not b ≡ true → b ≡ false
  false_of_not b h = ground arith

  plan_checkout-IsPlanned :
      (token : String) (gateway : Option String) (details : List PaymentDetails)
      (payments : List Payment) (c : Continuation)
      → plan_checkout host token gateway details payments ≡ ok c
      → IsPlanned payments c
  unfolding plan_checkout get_hosted_checkout_payment_record
  plan_checkout-IsPlanned token gateway details payments c e =
      let (h, found, e1) =
        >>=-eq-ok (get_hosted_checkout_payment_record host token details payments) _ e in
      let (_, joined) =
        >>-eq-ok (require (truthy (trim token)) (bad_request "checkoutToken is required")) _
          found in
      let (row, _, e2) = >>=-eq-ok (found_merchant (host.merchant_of h.payment.merchant_id)) _ e1 in
      let (merchant, _, e3) = >>=-eq-ok (failover_merchant host.env row.config) _ e2 in
      let (wish, _, e4) = >>=-eq-ok (parse_checkout_selectable_gateway gateway) _ e3 in
      let (allowed, e5) = require_inv _ _ _ e4 in
      let (_, e6) =
        >>-eq-ok
          (if is_auto (locked_to h.payment)
            then assert_routing_plan_allows (wish otherwise locked_to h.payment)
                (features_of host row)
            else ok tt)
          _ e5 in
      let (unpaid, e7) = require_inv _ _ _ e6 in
      let (decision, decided, e8) =
        >>=-eq-ok
          (decide host.env (wish otherwise locked_to h.payment) RoutingMode.strict_priority
            (host.stored h.payment.raw_gateway).payment_method_preference
            (record {
              merchant = merchant;
              excluded = [];
              amount_cents = some (pos h.payment.amount_cents);
              currency = some h.payment.currency;
              customer_email = h.customer_email;
            }))
          _ e7 in
      subst (IsPlanned payments) (of_ok e8) (record {
        requested = wish otherwise locked_to h.payment;
        request = _;
        method = _;
        row = join_payment_inv payments _ h joined;
        allowed = allowed;
        unpaid = false_of_not _ unpaid;
        decided = decided;
      })

  -- Where an answer comes from: the redirection that the payment has, or a new initialization.
  abbrev pub IsAnswer : Continuation → Db → Db → Continued → Type 0
  IsAnswer c db db' (reused p g) = (c.payment ≡ p) × (c.decision.selected_gateway ≡ g)
  IsAnswer c db db' (opened p i) = (c.payment ≡ p) × (initialize_again host c db ≡ (db', ok i))

  continue_initialized_inv :
      (c : Continuation) (db db' : Db) (a : Continued) (out : Db × Result Initialization)
      → initialize_again host c db ≡ out
      → continue_initialized host c.payment out ≡ (db', ok a)
      → IsAnswer c db db' a
  continue_initialized_inv c db db' a (db1, err e) done h =
      let bad : err e ≡ ok a = ap (λ (o : Db × Result Continued). o.1) h in cc
  continue_initialized_inv c db db' a (db1, ok i) done h =
      let whole : opened c.payment i ≡ a = of_ok (ap (λ (o : Db × Result Continued). o.1) h) in
      let state : db1 ≡ db' = ap (λ (o : Db × Result Continued). o.0) h in
      subst (IsAnswer c db db') whole (refl, done ∙ ap (λ (d : Db). (d, ok i)) state)

  continue_planned_inv :
      (r : Result Continuation) (db db' : Db) (a : Continued)
      → continue_planned host r db ≡ (db', ok a)
      → (c : Continuation) × (r ≡ ok c) × IsAnswer c db db' a
  continue_planned_inv (err e) db db' a h =
      let bad : err e ≡ ok a = ap (λ (o : Db × Result Continued). o.1) h in cc
  continue_planned_inv (ok c) db db' a h = elim (Bool-cases (has_session host c db.attempts)) [
    | inl t ↦
        let h' = rw t at h in
        let whole : reused c.payment c.decision.selected_gateway ≡ a =
          of_ok (ap (λ (o : Db × Result Continued). o.1) h') in
        (c, refl, subst (IsAnswer c db db') whole (refl, refl))
    | inr f ↦ (c, refl, continue_initialized_inv c db db' a _ refl (rw f at h))
  ]

  -- The payment is not paid, its only open attempt is the new one, and its row is at the gateway of
  -- the session; its status is CREATED if it was, and PENDING whatever else it was.
  abbrev pub IsReopened : Payment → Initialization → Db → Type 0
  IsReopened p i after =
      ((p.status == PaymentStatus.paid) ≡ false)
      × (open_attempts p.id after.attempts ≡ 1)
      × ((raw : Option String) × (row_of p.id after.payments
            ≡ some (record p {
              gateway = some i.gateway;
              gateway_ref = i.session.external_reference;
              status = initialized_status p.status;
              raw_gateway = raw;
            })))

  -- A checkout that is continued with a new session is of a payment that is not paid; the payment is
  -- then at the gateway of the session, with one open attempt, and its status is CREATED if it was
  -- CREATED, and PENDING if it was anything else, also a final status.
  pub continue-IsReopened :
      (token : String) (gateway : Option String) (details : List PaymentDetails) (db db' : Db)
      (p : Payment) (i : Initialization)
      → continue_hosted_checkout host token gateway details db ≡ (db', ok (opened p i))
      → IsReopened p i db'
  unfolding continue_hosted_checkout
  continue-IsReopened token gateway details db db' p i h =
      let (c, planned, (same, done)) =
        continue_planned_inv (plan_checkout host token gateway details db.payments) db db'
          (opened p i) h in
      let passed = plan_checkout-IsPlanned token gateway details db.payments c planned in
      let state = host.stored c.payment.raw_gateway in
      let outcome =
        initialize-HasOutcome (host.redirect c.merchant c.payment) host.new_attempt_id host.render
          c.payment state.fallback_count state.initialization_failures c.plan.fallback c.decision db
          c.payment passed.row in
      let (one, row, _) =
        subst
          (λ (o : Db × Result Initialization).
            HasOutcome c.payment c.payment (open_attempts c.payment.id db.attempts)
              (record {
                fallback_count = state.fallback_count;
                initialization_failures = state.initialization_failures;
                last_error = none;
              })
              o.1 o.0)
          done outcome in
      subst (λ (q : Payment). IsReopened q i db') same (passed.unpaid, one, row)

  abbrev pub payment_of : Continued → Payment
  payment_of (reused p g) = p
  payment_of (opened p i) = p

  abbrev pub gateway_of : Continued → GatewayProvider
  gateway_of (reused p g) = g
  gateway_of (opened p i) = i.gateway

  -- The only gateway that may be tried.
  tried_one :
      (mode : SelectionMode) (fallback : Bool) (g : GatewayProvider)
      → tried mode fallback (g ∷ []) ≡ g ∷ []
  tried_one explicit fallback g = refl
  tried_one automatic true g = refl
  tried_one automatic false g = refl

  found_one :
      (test : GatewayProvider → Bool) (g h : GatewayProvider) → some h ≡ find? test (g ∷ []) → h ≡ g
  found_one test g h e = elim (Bool-cases (test g)) [
    | inl t ↦ let e' : some h ≡ some g = rw t at e in cc
    | inr f ↦ let e' : some h ≡ none = rw f at e in absurd (cc)
  ]

  only_requested :
      (r : RequestedGateway) (g : GatewayProvider) → same_request r (only g) ≡ true → only g ≡ r
  only_requested (only h) g e = ap only (sym ((gateway_beq_iff h g).0 e))
  only_requested auto g e = absurd (cc)
  only_requested unspecified g e = absurd (cc)

  -- The answer of a decision for one gateway.
  answer_of_one :
      (c : Continuation) (db db' : Db) (a : Continued) (g : GatewayProvider)
      → c.decision.selected_gateway ≡ g
      → gateways c.decision.eligible_gateways ≡ g ∷ []
      → IsAnswer c db db' a
      → gateway_of a ≡ g
  answer_of_one c db db' (reused p h) g selected offered (_, its) = sym its ∙ selected
  answer_of_one c db db' (opened p i) g selected offered (_, done) =
      let state = host.stored c.payment.raw_gateway in
      let test = opens (host.redirect c.merchant c.payment) in
      let taken : some i.gateway ≡ chosen (initialize_again host c db).1 =
        sym (ap (λ (o : Db × Result Initialization). chosen o.1) done) in
      let ends =
        initialize-chosen (host.redirect c.merchant c.payment) host.new_attempt_id host.render
          c.payment state.fallback_count state.initialization_failures c.plan.fallback c.decision
          db in
      found_one test g i.gateway (
        taken
        ∙ ends
        ∙ ap (λ gs. find? test (tried c.decision.selection_mode c.plan.fallback gs)) offered
        ∙ ap (find? test) (tried_one c.decision.selection_mode c.plan.fallback g))

  answer-payment :
      (c : Continuation) (db db' : Db) (a : Continued)
      → IsAnswer c db db' a
      → c.payment ≡ payment_of a
  answer-payment c db db' (reused p g) (same, _) = same
  answer-payment c db db' (opened p i) (same, _) = same

  -- A checkout that is locked to a gateway leads to that gateway, if it leads anywhere.
  pub continue_locked :
      (token : String) (gateway : Option String) (details : List PaymentDetails) (db db' : Db)
      (a : Continued) (g : GatewayProvider)
      → continue_hosted_checkout host token gateway details db ≡ (db', ok a)
      → locked_to (payment_of a) ≡ only g
      → gateway_of a ≡ g
  unfolding continue_hosted_checkout
  continue_locked token gateway details db db' a g h lock =
      let (c, planned, answer) =
        continue_planned_inv (plan_checkout host token gateway details db.payments) db db' a h in
      let passed = plan_checkout-IsPlanned token gateway details db.payments c planned in
      let its : locked_to c.payment ≡ only g =
        ap locked_to (answer-payment c db db' a answer) ∙ lock in
      let same : same_request passed.requested (only g) ≡ true =
        sym (ap (λ l. is_auto l || same_request passed.requested l) its) ∙ passed.allowed in
      let asked = only_requested passed.requested g same in
      let (selected, offered) =
        decide_explicit_lem host.env RoutingMode.strict_priority passed.method passed.request g
          c.decision
          (ap (λ r. decide host.env r RoutingMode.strict_priority passed.method passed.request)
              asked
            ∙ passed.decided) in
      answer_of_one c db db' a g selected offered answer

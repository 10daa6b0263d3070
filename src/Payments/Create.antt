-- ===== src/Payments/Create.antt =====
-- src/payments/payments.service.ts: a payment that a merchant creates (createPayment), under an
-- idempotency key or without one.
pub mod Rows
pub mod Accepted
pub mod Laws
pub mod Outcome
pub mod Failure
use Prim.Native.String.{[], ◌∷◌}
use stackaura_checkout_api.Base.{
  ℕ, zero, suc, String, Bool, true, false, not, Option, none, some, List, [], ◌∷◌, ◌==◌, ◌/=◌, ◌&&◌,
  ◌+◌, ◌*◌, ltb, string_eq, find?, any, update_where, if◌then◌else◌, ◌otherwise◌,
}
use stackaura_checkout_api.Base.Int.{ℤ, pos, pos_part}
use stackaura_checkout_api.Base.Text.{trim, truthy, to_upper, non_blank, ◌<>◌}
use stackaura_checkout_api.Base.Result.{
  Error, bad_request, unauthorized, not_found, conflict, Result, ok, err, ◌>>=◌, ◌>>◌, require,
}
use stackaura_checkout_api.Domain.{Env, PaymentStatus, GatewayProvider}
use stackaura_checkout_api.Store.{Payment, Attempt, Db}
use stackaura_checkout_api.Payments.Monetization.{
  PlanRow, FeeBreakdown, PlanFeatures, MerchantPlan, resolve_merchant_plan,
  compute_platform_fee_breakdown,
}
use stackaura_checkout_api.Payments.Failover.{
  MerchantRow, Session, failover_merchant, plan_code_or_growth,
}
use stackaura_checkout_api.Payments.Initialize.{
  RoutingSnapshot, Initialization, initialize_payment_gateway_with_fallback,
}
use stackaura_checkout_api.Routing.Readiness.{MerchantGatewayConfig}
use stackaura_checkout_api.Routing.Decide.{
  RequestedGateway, only, auto, unspecified, RoutingMode, Decision, decide,
}
use stackaura_checkout_api.Payments.CreateRequest.{
  CreatePaymentDto, parse_positive_int, gateway_word, parse_requested_gateway, take_text,
  normalize_idempotency_key, assert_routing_plan_allows, text_or,
}

-- `model IdempotencyKey`
pub record IdempotencyKey : Type 0 where
  pub merchant_id : String
  pub scope : String
  pub idempotency_key : String
  pub request_hash : String
  pub payment_id : Option String

-- The columns of a payment that no other module reads; times are in milliseconds.
pub record PaymentDetails : Type 0 where
  pub payment_id : String
  pub base_amount_cents : ℕ
  pub checkout_token : String
  pub expires_at : ℕ
  pub customer_email : Option String

pub record State : Type 0 where
  pub db : Db
  pub details : List PaymentDetails
  pub keys : List IdempotencyKey

-- What the call returns: the new payment with its initialization, or the row of the payment that an
-- earlier call has created, which the response is built from.
pub data Response : Type 0 where
  created : Payment → Initialization → Response
  replayed : Payment → Response

-- What `idempotencyKey.findUnique` and the two tests after it decide: the key is free, it was used
-- with another body, or it names the payment that it has created.
pub data Lookup : Type 0 where
  free other_body : Lookup
  known : String → Lookup

abbrev pub is_key : String → String → IdempotencyKey → Bool
is_key merchant_id key row =
    row.merchant_id == merchant_id && row.scope == "payments.create" && row.idempotency_key == key

abbrev payment_of_key : Option String → Lookup
payment_of_key none = free
payment_of_key (some id) = known id

abbrev look_at : String → Option IdempotencyKey → Lookup
look_at hash none = free
look_at hash (some row) =
    if row.request_hash /= hash then other_body else payment_of_key row.payment_id

abbrev pub look_up_key : String → Option String → String → List IdempotencyKey → Lookup
look_up_key merchant_id none hash keys = free
look_up_key merchant_id (some key) hash keys = look_at hash (find? (is_key merchant_id key) keys)

-- `idempotencyKey.upsert`, where a key was given.
abbrev pub store_key :
    String → Option String → String → String → List IdempotencyKey → List IdempotencyKey
store_key merchant_id none hash payment_id keys = keys
store_key merchant_id (some key) hash payment_id keys =
    if any (is_key merchant_id key) keys
    then update_where (is_key merchant_id key)
        (λ row. record row { request_hash = hash; payment_id = some payment_id }) keys
    else record {
      merchant_id = merchant_id;
      scope = "payments.create";
      idempotency_key = key;
      request_hash = hash;
      payment_id = some payment_id;
    }
      ∷ keys

abbrev found_payment : Option Payment → Result Response
found_payment none = err (not_found "Payment not found")
found_payment (some p) = ok (replayed p)

-- `getPaymentResponseById`, up to the form of its response.
unfoldable pub get_payment_response_by_id : String → String → List Payment → Result Response
get_payment_response_by_id merchant_id payment_id payments =
    found_payment
      (find? (λ (p : Payment). p.id == payment_id && p.merchant_id == merchant_id) payments)

abbrev pub found_merchant : Option MerchantRow → Result MerchantRow
found_merchant none = err (not_found "Merchant not found")
found_merchant (some row) = ok row

-- A request that may be carried out.
pub record Prepared : Type 0 where
  pub payment : Payment
  pub details : PaymentDetails
  pub merchant : MerchantGatewayConfig
  pub plan : PlanFeatures
  pub decision : Decision

-- What a call depends on: the environment; the merchants' rows, their secrets decrypted; the digest
-- of the scope and the request; `createGatewayRedirect`; the merged JSON of a snapshot; the reference
-- and the token that are drawn for the call, and its time; the ids that the database gives the next
-- rows.
pub record Surroundings : Type 0 where
  pub env : Env
  pub merchant_of : String → Option MerchantRow
  pub request_hash : CreatePaymentDto → String
  pub redirect :
      CreatePaymentDto → MerchantGatewayConfig → Payment → GatewayProvider → Result Session
  pub render : RoutingSnapshot → String
  pub random_reference : String
  pub random_token : String
  pub now : ℕ
  pub new_payment_id : List Payment → String
  pub new_attempt_id : List Attempt → String

module _ (around : Surroundings) where
  abbrev pub plan_of : MerchantRow → MerchantPlan
  plan_of row = resolve_merchant_plan around.env (record {
    merchant_plan_code = some (plan_code_or_growth row.plan_code);
    merchant_platform_fee_bps = row.platform_fee_bps;
    merchant_platform_fee_fixed_cents = row.platform_fee_fixed_cents;
  })

  abbrev pub currency_of : CreatePaymentDto → String
  currency_of dto = to_upper (text_or dto.currency "ZAR")

  abbrev pub minutes_of : CreatePaymentDto → Result ℕ
  minutes_of dto = elim dto.expires_in_minutes [
    | none ↦ ok 30
    | some minutes ↦ parse_positive_int "expiresInMinutes" minutes
  ]

  abbrev pub breakdown_of : ℕ → MerchantRow → FeeBreakdown
  breakdown_of base row = compute_platform_fee_breakdown (some (pos base)) (plan_of row).fee_policy

  -- The row that is created for a decision.
  abbrev pub new_payment :
      String → CreatePaymentDto → List Payment → FeeBreakdown → Decision → Payment
  new_payment merchant_id dto payments breakdown decision = record {
    id = around.new_payment_id payments;
    merchant_id = merchant_id;
    reference = text_or dto.reference around.random_reference;
    currency = currency_of dto;
    amount_cents = breakdown.charge_amount_cents;
    platform_fee_cents = breakdown.platform_fee_cents;
    merchant_net_cents = breakdown.merchant_net_cents;
    status = PaymentStatus.created;
    gateway = some decision.selected_gateway;
    gateway_ref = none;
    raw_gateway = none;
    description = dto.description;
  }

  -- The part of the call that reads, in the order of its checks.
  unfoldable pub prepare : String → CreatePaymentDto → List Payment → Result Prepared
  prepare merchant_id dto payments = parse_positive_int "amountCents" dto.amount_cents >>= λ base.
      found_merchant (around.merchant_of merchant_id) >>= λ row.
      failover_merchant around.env row.config >>= λ merchant. minutes_of dto >>= λ minutes.
      parse_requested_gateway dto.gateway >>= λ requested.
      assert_routing_plan_allows requested (plan_of row).routing_features
      >> (decide around.env requested RoutingMode.strict_priority dto.payment_method_preference
            (record {
              merchant = merchant;
              excluded = [];
              amount_cents = some (pos (breakdown_of base row).charge_amount_cents);
              currency = some (currency_of dto);
              customer_email = dto.customer_email;
            })
          >>= λ decision.
              let payment = new_payment merchant_id dto payments (breakdown_of base row) decision in
              require (not (any (λ (p : Payment). p.reference == payment.reference) payments))
                (conflict "Payment reference already exists")
              >> ok (record {
                payment = payment;
                details = record {
                  payment_id = payment.id;
                  base_amount_cents = (breakdown_of base row).base_amount_cents;
                  checkout_token = around.random_token;
                  expires_at = around.now + minutes * 60 * 1000;
                  customer_email = dto.customer_email;
                };
                merchant = merchant;
                plan = (plan_of row).routing_features;
                decision = decision;
              }))

  abbrev pub with_row : Prepared → Db → Db
  with_row ready db = record db { payments = ready.payment ∷ db.payments }

  -- The payment's gateway is initialized after its row was created.
  abbrev pub initialize : CreatePaymentDto → Prepared → Db → Db × Result Initialization
  initialize dto ready db =
      initialize_payment_gateway_with_fallback (around.redirect dto ready.merchant ready.payment)
        around.new_attempt_id around.render ready.payment 0 [] ready.plan.fallback ready.decision
        (with_row ready db)

  -- The key is stored after the initialization has succeeded, and not before.
  abbrev pub conclude :
      String
      → Option String
      → CreatePaymentDto
      → Prepared
      → State
      → Db × Result Initialization
      → State × Result Response
  conclude merchant_id key dto ready st (db, err e) =
      (record st { db = db; details = ready.details ∷ st.details }, err e)
  conclude merchant_id key dto ready st (db, ok i) = (
    record {
      db = db;
      details = ready.details ∷ st.details;
      keys = store_key merchant_id key (around.request_hash dto) ready.payment.id st.keys;
    },
    ok (created ready.payment i),
  )

  abbrev pub carry_out :
      String → Option String → CreatePaymentDto → State → Result Prepared → State × Result Response
  carry_out merchant_id key dto st (err e) = (st, err e)
  carry_out merchant_id key dto st (ok ready) =
      conclude merchant_id key dto ready st (initialize dto ready st.db)

  abbrev pub answer :
      String → Option String → CreatePaymentDto → State → Lookup → State × Result Response
  answer merchant_id key dto st other_body =
      (st, err (conflict "Idempotency-Key has already been used with a different request body"))
  answer merchant_id key dto st (known id) =
      (st, get_payment_response_by_id merchant_id id st.db.payments)
  answer merchant_id key dto st free =
      carry_out merchant_id key dto st (prepare merchant_id dto st.db.payments)

  unfoldable pub create_payment :
      String → CreatePaymentDto → Option String → State → State × Result Response
  create_payment merchant_id_plain dto idempotency_key st =
      let merchant_id = trim merchant_id_plain in
      let key = normalize_idempotency_key idempotency_key in
      if truthy merchant_id
      then answer merchant_id key dto st
          (look_up_key merchant_id key (around.request_hash dto) st.keys)
      else (st, err (unauthorized "Invalid API key"))

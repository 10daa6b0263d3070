-- ===== src/Tests/Creation.antt =====
-- A payment that a merchant creates under an idempotency key, at Yoco, which fails, and then Ozow.
use stackaura_checkout_api.Base.{ℕ, String, true, none, some, [], ◌∷◌, ◌≡◌, refl, string_eq, find?}
use stackaura_checkout_api.Base.Int.{pos}
use stackaura_checkout_api.Base.Result.{Error, conflict, Result, ok, err, plain}
use stackaura_checkout_api.Domain.{Env, PaymentStatus, GatewayProvider, ozow, yoco}
use stackaura_checkout_api.Store.{Payment, Db}
use stackaura_checkout_api.Base.Text.{truthy, trim, trim_to_null, non_blank, to_upper, to_lower}
use stackaura_checkout_api.Gateways.Yoco.{
  resolve_yoco_config, assert_yoco_config_consistency, detect_yoco_mode_from_keys,
}
use stackaura_checkout_api.Gateways.Paystack.{
  resolve_paystack_config, assert_paystack_config_consistency, detect_paystack_mode_from_secret_key,
}
use stackaura_checkout_api.Gateways.Ozow.{resolve_ozow_config, parse_ozow_test_mode}
use stackaura_checkout_api.Payments.Monetization.{
  resolve_merchant_plan, builtin_plan_features, normalize_merchant_plan_code,
  normalize_fee_component, compute_platform_fee_breakdown, resolve_platform_default_fee_policy,
}
use stackaura_checkout_api.Routing.Readiness.{
  readiness_of, get_gateway_readiness, is_foreign, exclusion,
}
use stackaura_checkout_api.Routing.Decide.{
  RoutingMode, Candidate, Decision, automatic, unspecified, decide, decide_auto,
  build_eligible_gateways, resolve_auto_rail_order, ready_in_order, rank_from,
  normalize_payment_method_preference,
}
use stackaura_checkout_api.Payments.Failover.{MerchantRow, Session, failover_merchant}
use stackaura_checkout_api.Payments.Create.Laws.{create-replayed}
use stackaura_checkout_api.Payments.Initialize.Laws.{HasOutcome, initialize-HasOutcome}
use stackaura_checkout_api.Payments.Initialize.Choice.{opens, tried, chosen, initialize-chosen}
use stackaura_checkout_api.Payments.Create.Failure.{
  first_opening, create_succeeds, create_retry_conflict, LeavesRow, later,
}
use stackaura_checkout_api.Payments.Create.Outcome.{
  IsPriced, create-IsPriced, IsFirst, create-IsFirst,
}
use stackaura_checkout_api.Payments.Initialize.{
  Initialization, initialize_payment_gateway_with_fallback, initialize_from, commit_session,
  record_failure, cancel_open_attempts,
}
use stackaura_checkout_api.Payments.Create.{
  Surroundings, State, Response, created, replayed, create_payment, prepare, plan_of, Prepared,
  free, look_up_key,
}
use stackaura_checkout_api.Payments.CreateRequest.{
  CreatePaymentDto, parse_positive_int, parse_requested_gateway, normalize_idempotency_key,
  assert_routing_plan_allows,
}

abbrev pub no_env : Env
no_env = record { var = λ name. none; number = λ text. none }

abbrev pub row : MerchantRow
row = record {
  config = record {
    gateway_order = some "[\"OZOW\",\"PAYFAST\"]";
    payfast_merchant_id = none;
    payfast_merchant_key = none;
    payfast_is_sandbox = none;
    ozow_site_code = some "S1";
    ozow_private_key = some "k";
    ozow_api_key = some "a";
    ozow_is_test = some true;
    yoco_public_key = some "pk_test_1";
    yoco_secret_key = some "sk_test_1";
    yoco_test_mode = none;
    paystack_secret_key = none;
    paystack_test_mode = none;
  };
  plan_code = some "scale";
  platform_fee_bps = none;
  platform_fee_fixed_cents = none;
}

abbrev pub only_ozow : GatewayProvider → Result Session
only_ozow ozow = ok (record { redirect_url = "u"; external_reference = some "x" })
only_ozow _ = err (plain "down")

abbrev none_opens : GatewayProvider → Result Session
none_opens g = err (plain "down")

abbrev around : (GatewayProvider → Result Session) → Surroundings
around redirect = record {
  env = no_env;
  merchant_of = λ id. some row;
  request_hash = λ dto. "h";
  redirect = λ dto merchant payment. redirect;
  render = λ snapshot. "{}";
  random_reference = "INV-1";
  random_token = "t";
  now = 0;
  new_payment_id = λ payments. "p1";
  new_attempt_id = λ attempts. "a1";
}

abbrev dto : CreatePaymentDto
dto = record {
  amount_cents = some (pos 1000);
  currency = none;
  reference = some " r1";
  gateway = none;
  customer_email = none;
  description = none;
  expires_in_minutes = none;
  payment_method_preference = none;
  item_name = none;
  return_url = none;
  cancel_url = none;
  error_url = none;
  notify_url = none;
  bank_reference = none;
}

abbrev empty : State
empty = record {
  db = record { payments = []; attempts = []; payouts = []; events = [] };
  details = [];
  keys = [];
}

abbrev outcome : State × Result Response
outcome = create_payment (around only_ozow) "m1" dto (some "k1") empty

abbrev after : State
after = outcome.0

abbrev pub row_created : Payment
row_created = record {
  id = "p1";
  merchant_id = "m1";
  reference = "r1";
  currency = "ZAR";
  amount_cents = 1000;
  platform_fee_cents = 0;
  merchant_net_cents = 1000;
  status = PaymentStatus.created;
  gateway = some yoco;
  gateway_ref = none;
  raw_gateway = none;
  description = none;
}

abbrev opened : Initialization
opened = record {
  gateway = ozow;
  session = record { redirect_url = "u"; external_reference = some "x" };
  fallback_count = 1;
  initialization_failures =
      record { gateway = yoco; error_message = "down"; fallback_to = some ozow } ∷ [];
}

made_now :
    create_payment (around only_ozow) "m1" dto (some "k1") empty
    ≡ (after, ok (created row_created opened))
unfolding create_payment prepare parse_positive_int parse_requested_gateway
    normalize_idempotency_key assert_routing_plan_allows initialize_payment_gateway_with_fallback
    initialize_from commit_session record_failure cancel_open_attempts
    compute_platform_fee_breakdown normalize_fee_component failover_merchant resolve_merchant_plan
    builtin_plan_features normalize_merchant_plan_code decide decide_auto build_eligible_gateways
    get_gateway_readiness readiness_of resolve_auto_rail_order normalize_payment_method_preference
    is_foreign exclusion resolve_ozow_config parse_ozow_test_mode resolve_yoco_config
    assert_yoco_config_consistency detect_yoco_mode_from_keys resolve_paystack_config
    assert_paystack_config_consistency detect_paystack_mode_from_secret_key trim trim_to_null
    non_blank to_upper to_lower ready_in_order rank_from resolve_platform_default_fee_policy
made_now = refl

key_named : normalize_idempotency_key (some "k1") ≡ some "k1"
unfolding normalize_idempotency_key trim
key_named = refl

falls_back : (plan_of (around only_ozow) row).routing_features.fallback ≡ true
unfolding resolve_merchant_plan builtin_plan_features normalize_merchant_plan_code trim to_lower
falls_back = refl

unasked : parse_requested_gateway none ≡ ok unspecified
unfolding parse_requested_gateway
unasked = refl

create-replayed_example :
    (q : Payment) × (create_payment (around none_opens) "m1" dto (some "k1") after
      ≡ (after, ok (replayed q)))
    × (q.id ≡ "p1")
    × (q.merchant_id ≡ trim "m1")
    × (q.gateway ≡ some ozow)
create-replayed_example =
    create-replayed (around only_ozow) (around none_opens) "m1" dto (some "k1") "k1" empty after
      row_created opened key_named refl made_now

create-IsPriced_example : IsPriced (some (pos 1000)) row_created
create-IsPriced_example =
    create-IsPriced (around only_ozow) "m1" dto (some "k1") empty after row_created opened made_now

create-IsFirst_example : IsFirst (around only_ozow) dto row row_created ozow
create-IsFirst_example =
    create-IsFirst (around only_ozow) "m1" dto (some "k1") empty after row_created opened row
      unspecified made_now refl falls_back unasked tt

-- The request is accepted, and the gateways that open a session for it.
accepted :
    (ready : Prepared) × (prepare (around only_ozow) (trim "m1") dto [] ≡ ok ready)
    × (first_opening (around only_ozow) dto ready ≡ some ozow)
unfolding prepare parse_positive_int parse_requested_gateway normalize_idempotency_key
    assert_routing_plan_allows initialize_payment_gateway_with_fallback initialize_from
    commit_session record_failure cancel_open_attempts compute_platform_fee_breakdown
    normalize_fee_component failover_merchant resolve_merchant_plan builtin_plan_features
    normalize_merchant_plan_code decide decide_auto build_eligible_gateways get_gateway_readiness
    readiness_of resolve_auto_rail_order normalize_payment_method_preference is_foreign exclusion
    resolve_ozow_config parse_ozow_test_mode resolve_yoco_config assert_yoco_config_consistency
    detect_yoco_mode_from_keys resolve_paystack_config assert_paystack_config_consistency
    detect_paystack_mode_from_secret_key trim trim_to_null non_blank to_upper to_lower
    ready_in_order rank_from resolve_platform_default_fee_policy
accepted = (_, refl, refl)

refused :
    (ready : Prepared) × (prepare (around none_opens) (trim "m1") dto [] ≡ ok ready)
    × (first_opening (around none_opens) dto ready ≡ none)
    × (non_blank " r1" ≡ some ready.payment.reference)
unfolding prepare parse_positive_int parse_requested_gateway normalize_idempotency_key
    assert_routing_plan_allows initialize_payment_gateway_with_fallback initialize_from
    commit_session record_failure cancel_open_attempts compute_platform_fee_breakdown
    normalize_fee_component failover_merchant resolve_merchant_plan builtin_plan_features
    normalize_merchant_plan_code decide decide_auto build_eligible_gateways get_gateway_readiness
    readiness_of resolve_auto_rail_order normalize_payment_method_preference is_foreign exclusion
    resolve_ozow_config parse_ozow_test_mode resolve_yoco_config assert_yoco_config_consistency
    detect_yoco_mode_from_keys resolve_paystack_config assert_paystack_config_consistency
    detect_paystack_mode_from_secret_key trim trim_to_null non_blank to_upper to_lower
    ready_in_order rank_from resolve_platform_default_fee_policy
refused = (_, refl, refl, refl)

signed_in : truthy (trim "m1") ≡ true
unfolding trim
signed_in = refl

key_free : look_up_key (trim "m1") (normalize_idempotency_key (some "k1")) "h" [] ≡ free
unfolding trim normalize_idempotency_key
key_free = refl

create_succeeds_example :
    let ready = accepted.0 in
    (st' : State) × ((i : Initialization) × (create_payment
          (around only_ozow)
          "m1"
          dto
          (some "k1")
          empty
        ≡ (st', ok (created ready.payment i)))
      × (i.gateway ≡ ozow))
create_succeeds_example =
    create_succeeds (around only_ozow) "m1" dto (some "k1") empty accepted.0 ozow
      (signed_in, key_free, accepted.1) accepted.2

create_retry_conflict_example :
    let ready = refused.0 in
    (st' : State) × ((e : Error) × (create_payment (around none_opens) "m1" dto (some "k1") empty
        ≡ (st', err e))
      × LeavesRow (around none_opens) empty ready st'
      × ((reference token : String) (now : ℕ)
          → create_payment (later (around none_opens) reference token now) "m1" dto (some "k1") st'
            ≡ (st', err (conflict "Payment reference already exists"))))
create_retry_conflict_example =
    create_retry_conflict (around none_opens) "m1" dto (some "k1") " r1" empty refused.0
      (signed_in, key_free, refused.1) refused.2 refl refused.3

-- The loop on its own: two candidates, of which the second opens.
abbrev candidate : GatewayProvider → ℕ → Candidate
candidate g priority = record { gateway = g; priority = priority; reason = [] }

abbrev decision : Decision
decision = record {
  mode = RoutingMode.strict_priority;
  selection_mode = automatic;
  requested_gateway = unspecified;
  selected_gateway = yoco;
  routing_reason = [];
  eligible_gateways = candidate yoco 0 ∷ candidate ozow 1 ∷ [];
  skipped_gateways = [];
  readiness = [];
}

abbrev stored_db : Db
stored_db = record { payments = row_created ∷ []; attempts = []; payouts = []; events = [] }

abbrev ended : Db × Result Initialization
ended =
    initialize_payment_gateway_with_fallback only_ozow (λ attempts. "a1") (λ snapshot. "{}")
      row_created 2 [] true decision stored_db

initialize-HasOutcome_example :
    HasOutcome row_created row_created 0
      (record { fallback_count = 2; initialization_failures = []; last_error = none })
      ended.1
      ended.0
initialize-HasOutcome_example =
    initialize-HasOutcome only_ozow (λ attempts. "a1") (λ snapshot. "{}") row_created 2 [] true
      decision stored_db row_created refl

initialize-chosen_example :
    chosen ended.1 ≡ find? (opens only_ozow) (tried automatic true (yoco ∷ ozow ∷ []))
initialize-chosen_example =
    initialize-chosen only_ozow (λ attempts. "a1") (λ snapshot. "{}") row_created 2 [] true decision
      stored_db

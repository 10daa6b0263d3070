-- ===== src/Tests/Failovers.antt =====
-- A payment that failed at Yoco and is moved on to Ozow.
use stackaura_checkout_api.Base.{
  String, true, false, none, some, [], ◌∷◌, ◌==◌, ◌≡◌, refl, string_eq,
}
use stackaura_checkout_api.Base.Result.{Result, ok}
use stackaura_checkout_api.Base.Text.{trim, trim_to_null, to_upper, to_lower}
use stackaura_checkout_api.Domain.{
  Env, PaymentStatus, AttemptStatus, GatewayProvider, ozow, yoco, payment_status_eq,
}
use stackaura_checkout_api.Store.{Payment, Attempt, Db}
use stackaura_checkout_api.Gateways.Yoco.{
  resolve_yoco_config, assert_yoco_config_consistency, detect_yoco_mode_from_keys,
}
use stackaura_checkout_api.Gateways.Paystack.{
  resolve_paystack_config, assert_paystack_config_consistency, detect_paystack_mode_from_secret_key,
}
use stackaura_checkout_api.Gateways.Ozow.{resolve_ozow_config, parse_ozow_test_mode}
use stackaura_checkout_api.Payments.Monetization.{
  resolve_merchant_plan, builtin_plan_features, normalize_merchant_plan_code,
}
use stackaura_checkout_api.Routing.Readiness.{
  readiness_of, get_gateway_readiness, is_foreign, exclusion,
}
use stackaura_checkout_api.Routing.Decide.{
  decide, decide_auto, build_eligible_gateways, resolve_auto_rail_order,
  normalize_payment_method_preference,
}
use stackaura_checkout_api.Payments.Failover.{
  MerchantRow, StoredState, Session, find_for_failover, plan_failover, check_failover,
  choose_gateway, resolve_next_failover_decision, failover_merchant, create_failover_attempt,
}
use stackaura_checkout_api.Payments.Failover.Attempts.{IsMoved}
use stackaura_checkout_api.Payments.Failover.Laws.{create_failover_attempt_lem}

abbrev no_env : Env
no_env = record { var = λ name. none; number = λ text. none }

abbrev row : MerchantRow
row = record {
  config = record {
    gateway_order = some "[\"OZOW\",\"PAYFAST\"]";
    payfast_merchant_id = none;
    payfast_merchant_key = none;
    payfast_is_sandbox = none;
    ozow_site_code = some "S1";
    ozow_private_key = some "k";
    ozow_api_key = some "a";
    ozow_is_test = some true;
    yoco_public_key = some "pk_test_1";
    yoco_secret_key = some "sk_test_1";
    yoco_test_mode = none;
    paystack_secret_key = none;
    paystack_test_mode = none;
  };
  plan_code = some "scale";
  platform_fee_bps = none;
  platform_fee_fixed_cents = none;
}

abbrev stored : StoredState
stored = record {
  locked_to = none;
  checkout_started = false;
  customer_email = none;
  payment_method_preference = none;
}

abbrev payment : Payment
payment = record {
  id = "p1";
  merchant_id = "m1";
  reference = "r1";
  currency = "ZAR";
  amount_cents = 1000;
  platform_fee_cents = 50;
  merchant_net_cents = 950;
  status = PaymentStatus.failed;
  gateway = some yoco;
  gateway_ref = none;
  raw_gateway = none;
  description = none;
}

abbrev attempt : String → GatewayProvider → AttemptStatus → Attempt
attempt id gateway status = record {
  id = id;
  payment_id = "p1";
  gateway = gateway;
  status = status;
  redirect_url = "";
}

abbrev db : Db
db = record {
  payments = payment ∷ [];
  attempts = attempt "a1" yoco AttemptStatus.pending ∷ [];
  payouts = [];
  events = [];
}

abbrev redirect : GatewayProvider → Result Session
redirect g = ok (record { redirect_url = ""; external_reference = none })

made :
    (create_failover_attempt no_env redirect "a2" "{}" false row stored " r1" none db).1
    ≡ ok (some (attempt "a2" ozow AttemptStatus.created))
unfolding create_failover_attempt plan_failover check_failover choose_gateway
    resolve_next_failover_decision failover_merchant resolve_merchant_plan builtin_plan_features
    normalize_merchant_plan_code decide decide_auto build_eligible_gateways get_gateway_readiness
    readiness_of resolve_auto_rail_order normalize_payment_method_preference is_foreign exclusion
    resolve_ozow_config parse_ozow_test_mode resolve_yoco_config assert_yoco_config_consistency
    detect_yoco_mode_from_keys resolve_paystack_config assert_paystack_config_consistency
    detect_paystack_mode_from_secret_key trim trim_to_null to_upper to_lower
made = refl

create_failover_attempt_lem_example :
    (p : Payment) × (find_for_failover " r1" none db ≡ some p)
    × ((p.status == PaymentStatus.paid) ≡ false)
    × IsMoved db p
        (attempt "a2" ozow AttemptStatus.created)
        (create_failover_attempt no_env redirect "a2" "{}" false row stored " r1" none db).0
create_failover_attempt_lem_example =
    create_failover_attempt_lem no_env redirect "a2" "{}" false row stored " r1" none db
      (attempt "a2" ozow AttemptStatus.created) made

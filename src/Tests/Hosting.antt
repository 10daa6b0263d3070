-- ===== src/Tests/Hosting.antt =====
-- A failed payment whose checkout, locked to Ozow, is continued.
use stackaura_checkout_api.Base.{none, some, [], ◌∷◌, ◌≡◌, refl, string_eq}
use stackaura_checkout_api.Base.Result.{Result, ok}
use stackaura_checkout_api.Base.Text.{trim, trim_to_null, non_blank, to_upper, to_lower}
use stackaura_checkout_api.Domain.{PaymentStatus, ozow}
use stackaura_checkout_api.Store.{Payment, Db}
use stackaura_checkout_api.Gateways.Yoco.{
  resolve_yoco_config, assert_yoco_config_consistency, detect_yoco_mode_from_keys,
}
use stackaura_checkout_api.Gateways.Paystack.{
  resolve_paystack_config, assert_paystack_config_consistency, detect_paystack_mode_from_secret_key,
}
use stackaura_checkout_api.Gateways.Ozow.{resolve_ozow_config, parse_ozow_test_mode}
use stackaura_checkout_api.Payments.Monetization.{
  resolve_merchant_plan, builtin_plan_features, normalize_merchant_plan_code,
  normalize_fee_component, resolve_platform_default_fee_policy,
}
use stackaura_checkout_api.Routing.Readiness.{
  readiness_of, get_gateway_readiness, is_foreign, exclusion,
}
use stackaura_checkout_api.Routing.Decide.{
  only, decide, decide_explicit, build_eligible_gateways, resolve_auto_rail_order, ready_in_order,
  rank_from, normalize_payment_method_preference,
}
use stackaura_checkout_api.Payments.Failover.{failover_merchant}
use stackaura_checkout_api.Payments.Initialize.{
  Initialization, initialize_payment_gateway_with_fallback, initialize_from, commit_session,
  record_failure, cancel_open_attempts,
}
use stackaura_checkout_api.Payments.Create.{PaymentDetails}
use stackaura_checkout_api.Payments.CreateRequest.{parse_requested_gateway}
use stackaura_checkout_api.Payments.Hosted.{
  Hosting, Continued, opened, coerce_checkout_selectable_gateway, parse_checkout_selectable_gateway,
  get_hosted_checkout_payment_record, plan_checkout, continue_hosted_checkout,
}
use stackaura_checkout_api.Payments.Hosted.Laws.{IsReopened, continue-IsReopened, continue_locked}
use stackaura_checkout_api.Tests.Creation.{no_env, row, only_ozow, row_created}

abbrev host : Hosting
host = record {
  env = no_env;
  merchant_of = λ id. some row;
  redirect = λ merchant payment. only_ozow;
  render = λ snapshot. "{}";
  new_attempt_id = λ attempts. "a2";
  now = 0;
  stored = λ raw. record {
    requested_gateway = only ozow;
    fallback_count = 0;
    initialization_failures = [];
    payment_method_preference = none;
  };
  redirect_state = λ raw url. record { redirect_form = none; redirect_url = url };
}

abbrev failed : Payment
failed = record row_created { status = PaymentStatus.failed; raw_gateway = some "{}" }

abbrev details : PaymentDetails
details = record {
  payment_id = "p1";
  base_amount_cents = 1000;
  checkout_token = "t";
  expires_at = 10;
  customer_email = none;
}

abbrev db : Db
db = record { payments = failed ∷ []; attempts = []; payouts = []; events = [] }

abbrev initialized : Initialization
initialized = record {
  gateway = ozow;
  session = record { redirect_url = "u"; external_reference = some "x" };
  fallback_count = 0;
  initialization_failures = [];
}

abbrev outcome : Db × Result Continued
outcome = continue_hosted_checkout host " t" none (details ∷ []) db

continued :
    continue_hosted_checkout host " t" none (details ∷ []) db
    ≡ (outcome.0, ok (opened failed initialized))
unfolding continue_hosted_checkout plan_checkout get_hosted_checkout_payment_record
    coerce_checkout_selectable_gateway parse_checkout_selectable_gateway parse_requested_gateway
    initialize_payment_gateway_with_fallback initialize_from commit_session record_failure
    cancel_open_attempts normalize_fee_component failover_merchant resolve_merchant_plan
    builtin_plan_features normalize_merchant_plan_code decide decide_explicit
    build_eligible_gateways get_gateway_readiness readiness_of resolve_auto_rail_order
    normalize_payment_method_preference is_foreign exclusion resolve_ozow_config
    parse_ozow_test_mode resolve_yoco_config assert_yoco_config_consistency
    detect_yoco_mode_from_keys resolve_paystack_config assert_paystack_config_consistency
    detect_paystack_mode_from_secret_key trim trim_to_null non_blank to_upper to_lower
    ready_in_order rank_from resolve_platform_default_fee_policy
continued = refl

locked : coerce_checkout_selectable_gateway (only ozow) ≡ only ozow
unfolding coerce_checkout_selectable_gateway
locked = refl

continue-IsReopened_example : IsReopened host failed initialized outcome.0
continue-IsReopened_example =
    continue-IsReopened host " t" none (details ∷ []) db outcome.0 failed initialized continued

continue_locked_example : initialized.gateway ≡ ozow
continue_locked_example =
    continue_locked host " t" none (details ∷ []) db outcome.0 (opened failed initialized) ozow
      continued locked

-- ===== src/Tests/Routing.antt =====
-- The gateway that is selected for one merchant, which has keys for Yoco and Ozow and not for Paystack.
use stackaura_checkout_api.Base.{
  true, false, none, some, [], ◌∷◌, ◌≡◌, refl, ◌↔◌, contains, filter, find?,
}
use stackaura_checkout_api.Base.Int.{pos}
use stackaura_checkout_api.Base.Result.{ok}
use stackaura_checkout_api.Base.Text.{is_present, trim, trim_to_null, to_upper}
use stackaura_checkout_api.Domain.{Env, ozow, yoco, paystack, gateway_eq}
use stackaura_checkout_api.Gateways.Yoco.{
  resolve_yoco_config, assert_yoco_config_consistency, detect_yoco_mode_from_keys,
}
use stackaura_checkout_api.Gateways.Paystack.{
  resolve_paystack_config, assert_paystack_config_consistency, detect_paystack_mode_from_secret_key,
}
use stackaura_checkout_api.Gateways.Ozow.{resolve_ozow_config}
use stackaura_checkout_api.Routing.Readiness.{
  MerchantGatewayConfig, Request, Mode, readiness_of, get_gateway_readiness, is_foreign, exclusion,
}
use stackaura_checkout_api.Routing.Readiness.Laws.{ozow_ready_iff}
use stackaura_checkout_api.Routing.Decide.{
  RoutingMode, explicit, automatic, auto_eligible_gateway, explicit_gateway_request, priority_is,
  mode_is, explicit_candidate, only, auto, Decision, decide, decide_auto, decide_explicit,
  build_eligible_gateways, resolve_auto_rail_order, normalize_payment_method_preference,
}
use stackaura_checkout_api.Routing.Decide.Laws.{
  is_ready, selected, eligible, rail_order, decide_automatic, decide-ne-excluded,
}

abbrev no_env : Env
no_env = record { var = λ name. none; number = λ text. none }

abbrev merchant : MerchantGatewayConfig
merchant = record {
  gateway_order = some "[\"OZOW\",\"PAYFAST\"]";
  payfast_merchant_id = none;
  payfast_merchant_key = none;
  payfast_is_sandbox = none;
  ozow_site_code = some "S1";
  ozow_private_key = some "k";
  ozow_api_key = some "a";
  ozow_is_test = some true;
  yoco_public_key = some "pk_test_1";
  yoco_secret_key = some "sk_test_1";
  yoco_test_mode = none;
  paystack_secret_key = none;
  paystack_test_mode = none;
}

-- Yoco has failed already.
abbrev request : Request
request = record {
  merchant = merchant;
  excluded = yoco ∷ [];
  amount_cents = some (pos 1000);
  currency = some "zar";
  customer_email = some "a@b.c";
}

abbrev mode : RoutingMode
mode = RoutingMode.strict_priority

-- The automatic decision, and the one where Ozow was asked for.
abbrev decision : Decision
decision = record {
  mode = mode;
  selection_mode = automatic;
  requested_gateway = auto;
  selected_gateway = ozow;
  routing_reason = auto_eligible_gateway ∷ priority_is 1 ∷ mode_is Mode.test ∷ [];
  eligible_gateways =
      record {
        gateway = ozow;
        priority = 1;
        reason = auto_eligible_gateway ∷ priority_is 1 ∷ mode_is Mode.test ∷ [];
      }
      ∷ [];
  skipped_gateways = readiness_of no_env request paystack ∷ readiness_of no_env request yoco ∷ [];
  readiness = get_gateway_readiness no_env request;
}

abbrev explicit_decision : Decision
explicit_decision = record {
  mode = mode;
  selection_mode = explicit;
  requested_gateway = only ozow;
  selected_gateway = ozow;
  routing_reason = explicit_gateway_request ∷ [];
  eligible_gateways = explicit_candidate ozow ∷ [];
  skipped_gateways = readiness_of no_env request paystack ∷ readiness_of no_env request yoco ∷ [];
  readiness = get_gateway_readiness no_env request;
}

decided : decide no_env auto mode none request ≡ ok decision
unfolding decide decide_auto build_eligible_gateways get_gateway_readiness readiness_of
    resolve_auto_rail_order normalize_payment_method_preference is_foreign exclusion
    resolve_ozow_config resolve_yoco_config assert_yoco_config_consistency
    detect_yoco_mode_from_keys resolve_paystack_config assert_paystack_config_consistency
    detect_paystack_mode_from_secret_key trim trim_to_null to_upper
decided = refl

decided_ozow : decide no_env (only ozow) mode none request ≡ ok explicit_decision
unfolding decide decide_explicit build_eligible_gateways get_gateway_readiness readiness_of
    resolve_auto_rail_order normalize_payment_method_preference is_foreign exclusion
    resolve_ozow_config resolve_yoco_config assert_yoco_config_consistency
    detect_yoco_mode_from_keys resolve_paystack_config assert_paystack_config_consistency
    detect_paystack_mode_from_secret_key trim trim_to_null to_upper
decided_ozow = refl

decide_automatic_example :
    (selected (decide no_env auto mode none request)
      ≡ find? (is_ready no_env request) (rail_order no_env mode none request))
    × (eligible (decide no_env auto mode none request)
        ≡ filter (is_ready no_env request) (rail_order no_env mode none request))
decide_automatic_example = decide_automatic no_env mode none request auto tt

decide-ne-excluded_example : contains (yoco ∷ []) ozow ≡ false
decide-ne-excluded_example = decide-ne-excluded no_env mode none request auto decision decided

ozow_ready_iff_example :
    let config = resolve_ozow_config no_env (record {
      ozow_site_code = some "S1";
      ozow_private_key = some "k";
      ozow_api_key = some "a";
      ozow_is_test = some true;
    }) in
    ((readiness_of no_env request ozow).ready ≡ true) ↔ (
      (contains (yoco ∷ []) ozow ≡ false)
      × (is_present config.site_code ≡ true)
      × (is_present config.private_key ≡ true)
      × (is_foreign (some "zar") ≡ false))
ozow_ready_iff_example = ozow_ready_iff no_env request

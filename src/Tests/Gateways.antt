-- ===== src/Tests/Gateways.antt =====
-- Key modes, provider words and configurations of merchants.
use stackaura_checkout_api.Base.{true, none, some, ◌≡◌, refl, ◌↔◌}
use stackaura_checkout_api.Base.Result.{ok}
use stackaura_checkout_api.Base.Text.{trim, trim_to_null, to_lower}
use stackaura_checkout_api.Domain.{Env, Value, PaymentStatus}
use stackaura_checkout_api.Gateways.Lifecycle.{
  normalize_state, map_paystack_event_to_payment_status,
}
use stackaura_checkout_api.Gateways.Yoco.{
  Agrees, infer_key_mode, YocoConfigSource, YocoConfig, resolve_yoco_config,
  detect_yoco_mode_from_keys, assert_yoco_config_consistency, assert_yoco_config_consistency_iff,
}
use stackaura_checkout_api.Gateways.Paystack.{PaystackConfigSource, PaystackConfig}
use stackaura_checkout_api.Gateways.Ozow.{OzowConfigSource}

abbrev no_env : Env
no_env = record { var = λ name. none; number = λ text. none }

abbrev yoco_row : YocoConfigSource
yoco_row = record {
  yoco_public_key = some " pk_test_1 ";
  yoco_secret_key = some "sk_test_1";
  yoco_test_mode = none;
}

abbrev yoco_config : YocoConfig
yoco_config = record {
  public_key = some "pk_test_1";
  secret_key = some "sk_test_1";
  test_mode = true;
}

abbrev ozow_row : OzowConfigSource
ozow_row = record {
  ozow_site_code = some "S1";
  ozow_private_key = some "k";
  ozow_api_key = none;
  ozow_is_test = some true;
}

yoco_row_resolved : resolve_yoco_config no_env yoco_row ≡ ok yoco_config
unfolding resolve_yoco_config detect_yoco_mode_from_keys trim_to_null trim
yoco_row_resolved = refl

paid_event :
    map_paystack_event_to_payment_status (Value.str " Charge.Success") Value.null
    ≡ PaymentStatus.paid
unfolding map_paystack_event_to_payment_status normalize_state trim to_lower
paid_event = refl

assert_yoco_config_consistency_iff_example :
    (assert_yoco_config_consistency yoco_config ≡ ok tt) ↔ (
      Agrees (infer_key_mode (trim_to_null yoco_config.public_key) "pk_test_" "pk_live_") true
      × Agrees (infer_key_mode (trim_to_null yoco_config.secret_key) "sk_test_" "sk_live_") true)
assert_yoco_config_consistency_iff_example = assert_yoco_config_consistency_iff yoco_config

abbrev paystack_row : PaystackConfigSource
paystack_row = record { paystack_secret_key = some "sk_live_9 "; paystack_test_mode = none }

abbrev paystack_config : PaystackConfig
paystack_config = record { secret_key = some "sk_live_9"; test_mode = true }

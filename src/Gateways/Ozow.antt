-- ===== src/Gateways/Ozow.antt =====
-- src/gateways/ozow.config.ts: which Ozow credentials and mode apply to a merchant.
use stackaura_checkout_api.Base.{
  String, Bool, true, false, not, Option, none, some, ◌≡◌, refl, ◌&&◌, ◌||◌, string_eq,
  if◌then◌else◌, inl, inr, Bool-cases, ◌otherwise◌,
}
use stackaura_checkout_api.Base.Text.{trim_to_null, trim_to_null_idem, is_present}
use stackaura_checkout_api.Domain.{Env}
use stackaura_checkout_api.Payments.Monetization.{parse_boolean_env}
use stackaura_checkout_api.Gateways.Yoco.{not_production}

-- `OzowConfigSource`
pub record OzowConfigSource : Type 0 where
  pub ozow_site_code : Option String
  pub ozow_private_key : Option String
  pub ozow_api_key : Option String
  pub ozow_is_test : Option Bool

-- `NormalizedOzowConfigValues`
pub record OzowValues : Type 0 where
  pub site_code : Option String
  pub private_key : Option String
  pub api_key : Option String
  pub is_test : Option Bool

-- `OzowConfigOrigin` and `OzowConfigModeSource`
pub data OzowOrigin : Type 0 where
  merchant env default : OzowOrigin

-- `ResolvedOzowConfig`, without its constant URLs.
pub record OzowConfig : Type 0 where
  pub site_code : Option String
  pub private_key : Option String
  pub api_key : Option String
  pub is_test : Bool
  pub source : OzowOrigin
  pub mode_source : OzowOrigin
  pub has_partial_merchant_config : Bool

unfoldable pub normalize_ozow_config_values : OzowConfigSource → OzowValues
normalize_ozow_config_values source = record {
  site_code = trim_to_null source.ozow_site_code;
  private_key = trim_to_null source.ozow_private_key;
  api_key = trim_to_null source.ozow_api_key;
  is_test = source.ozow_is_test;
}

unfoldable pub current_env_ozow_config : Env → OzowValues
current_env_ozow_config environment = record {
  site_code = trim_to_null (environment.var "OZOW_SITE_CODE");
  private_key = trim_to_null (environment.var "OZOW_PRIVATE_KEY");
  api_key = trim_to_null (environment.var "OZOW_API_KEY");
  is_test = parse_boolean_env (environment.var "OZOW_TEST_MODE");
}

abbrev pub is_set : Option Bool → Bool
is_set none = false
is_set (some b) = true

abbrev pub has_any_merchant_credential : OzowValues → Bool
has_any_merchant_credential config =
    is_present config.site_code || is_present config.private_key || is_present config.api_key

abbrev pub has_any_merchant_value : OzowValues → Bool
has_any_merchant_value config = has_any_merchant_credential config || is_set config.is_test

-- `string | boolean | null | undefined`
pub data TestMode : Type 0 where
  flag : Bool → TestMode
  words : String → TestMode
  absent : TestMode

unfoldable pub parse_ozow_test_mode : Env → TestMode → Bool
parse_ozow_test_mode environment (flag b) = b
parse_ozow_test_mode environment (words s) =
    parse_boolean_env (some s) otherwise not_production environment
parse_ozow_test_mode environment absent = not_production environment

abbrev pub mode_of : Option Bool → TestMode
mode_of none = absent
mode_of (some b) = flag b

unfoldable pub resolve_ozow_config : Env → OzowConfigSource → OzowConfig
unfolding normalize_ozow_config_values current_env_ozow_config parse_ozow_test_mode
resolve_ozow_config environment source =
    let merchant_values = normalize_ozow_config_values source in
    let env_values = current_env_ozow_config environment in
    let from_merchant = has_any_merchant_value merchant_values in
    let source_values : OzowValues = if from_merchant then merchant_values else env_values in
    let source_origin : OzowOrigin = if from_merchant then merchant else env in
    let mode_value = if from_merchant then merchant_values.is_test else env_values.is_test in
    record {
      site_code = source_values.site_code;
      private_key = source_values.private_key;
      api_key = source_values.api_key;
      is_test = parse_ozow_test_mode environment (mode_of mode_value);
      source = source_origin;
      mode_source =
          if is_set mode_value
          then source_origin
          else if not from_merchant && is_set env_values.is_test
          then env
          else default;
      has_partial_merchant_config =
          has_any_merchant_credential merchant_values
          && (not (is_present merchant_values.site_code)
              || not (is_present merchant_values.private_key));
    }

-- What a resolved configuration is when it is handed on as a source.
abbrev pub ozow_source_of : OzowConfig → OzowConfigSource
ozow_source_of config = record {
  ozow_site_code = config.site_code;
  ozow_private_key = config.private_key;
  ozow_api_key = config.api_key;
  ozow_is_test = some config.is_test;
}

or_true : (b : Bool) → (b || true) ≡ true
or_true true = refl
or_true false = refl

-- Resolving a resolved configuration again keeps its credentials and its mode.
pub resolve_ozow_config_stable :
    (environment : Env) (source : OzowConfigSource)
    → let config = resolve_ozow_config environment source in
      let again = resolve_ozow_config environment (ozow_source_of config) in
      (again.site_code ≡ config.site_code)
      × (again.private_key ≡ config.private_key)
      × (again.api_key ≡ config.api_key)
      × (again.is_test ≡ config.is_test)
unfolding resolve_ozow_config
resolve_ozow_config_stable environment source =
    elim (Bool-cases (has_any_merchant_value (normalize_ozow_config_values source))) [
      | inl t ↦
          rw t (rw or_true (trim_to_null_idem _, trim_to_null_idem _, trim_to_null_idem _, refl))
      | inr f ↦
          rw f (rw or_true (trim_to_null_idem _, trim_to_null_idem _, trim_to_null_idem _, refl))
    ]

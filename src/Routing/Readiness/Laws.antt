-- ===== src/Routing/Readiness/Laws.antt =====
-- What the readiness of a gateway guarantees.
use stackaura_checkout_api.Base.{
  String, true, false, List, ◌++◌, ◌≡◌, refl, ◌&&◌, ◌↔◌, inl, inr, string_eq, contains, arith,
  Bool-cases,
}
use stackaura_checkout_api.Base.Result.{Result, ok, err}
use stackaura_checkout_api.Base.Text.{is_present}
use stackaura_checkout_api.Domain.{Env, GatewayProvider, ozow, yoco, paystack, gateway_eq}
use stackaura_checkout_api.Gateways.Yoco.{YocoConfig}
use stackaura_checkout_api.Gateways.Paystack.{PaystackConfig}
use stackaura_checkout_api.Gateways.Ozow.{
  OzowConfigSource, resolve_ozow_config, has_any_merchant_value, normalize_ozow_config_values,
}
use stackaura_checkout_api.Routing.Readiness.{
  Request, exclusion, is_nil, yoco_checked, paystack_checked, readiness_of, ozow_readiness,
  is_foreign, yoco_readiness, paystack_readiness,
}

-- The issues of an excluded gateway start with the exclusion.
is_nil-exclusion :
    (excluded : List GatewayProvider) (g : GatewayProvider) (more : List String)
    → contains excluded g ≡ true
    → is_nil (exclusion excluded g ++ more) ≡ false
unfolding exclusion
is_nil-exclusion excluded g more h = rw h

yoco_checked_gateway :
    (request : Request) (r : Result YocoConfig) → (yoco_checked request r).gateway ≡ yoco
unfolding yoco_checked
yoco_checked_gateway request (ok config) = refl
yoco_checked_gateway request (err e) = refl

yoco_checked_excluded :
    (request : Request) (r : Result YocoConfig)
    → contains request.excluded yoco ≡ true
    → (yoco_checked request r).ready ≡ false
unfolding yoco_checked
yoco_checked_excluded request (ok config) h = is_nil-exclusion request.excluded yoco _ h
yoco_checked_excluded request (err e) h = refl

paystack_checked_gateway :
    (excluded : List GatewayProvider) (more : List String) (r : Result PaystackConfig)
    → (paystack_checked excluded more r).gateway ≡ paystack
unfolding paystack_checked
paystack_checked_gateway excluded more (ok config) = refl
paystack_checked_gateway excluded more (err e) = refl

paystack_checked_excluded :
    (excluded : List GatewayProvider) (more : List String) (r : Result PaystackConfig)
    → contains excluded paystack ≡ true
    → (paystack_checked excluded more r).ready ≡ false
unfolding paystack_checked
paystack_checked_excluded excluded more (ok config) h = is_nil-exclusion excluded paystack _ h
paystack_checked_excluded excluded more (err e) h = refl

module _ (env : Env) (request : Request) where
  pub readiness_of_gateway : (g : GatewayProvider) → (readiness_of env request g).gateway ≡ g
  unfolding readiness_of ozow_readiness yoco_readiness paystack_readiness
  readiness_of_gateway ozow = refl
  readiness_of_gateway yoco = yoco_checked_gateway request _
  readiness_of_gateway paystack = paystack_checked_gateway request.excluded _ _
  readiness_of_gateway g = refl

  pub excluded_not_ready :
      (g : GatewayProvider)
      → contains request.excluded g ≡ true
      → (readiness_of env request g).ready ≡ false
  unfolding readiness_of ozow_readiness yoco_readiness paystack_readiness
  excluded_not_ready ozow h = is_nil-exclusion request.excluded ozow _ h
  excluded_not_ready yoco h = yoco_checked_excluded request _ h
  excluded_not_ready paystack h = paystack_checked_excluded request.excluded _ _ h
  excluded_not_ready g h = refl

-- A row that is only partly configured leaves the site code or the private key missing.
partial_missing :
    (env : Env) (source : OzowConfigSource)
    → (resolve_ozow_config env source).has_partial_merchant_config ≡ true
    → (is_present (resolve_ozow_config env source).site_code
        && is_present (resolve_ozow_config env source).private_key)
      ≡ false
unfolding resolve_ozow_config
partial_missing env source h =
    elim (Bool-cases (has_any_merchant_value (normalize_ozow_config_values source))) [
      | inl t ↦ rw t (ground arith)
      | inr f ↦ absurd (ground arith)
    ]

-- Ozow is ready exactly when it is not excluded, a site code and a private key are configured,
-- and the currency, if one is given, is ZAR.
pub ozow_ready_iff :
    (env : Env) (request : Request)
    → let config = resolve_ozow_config env (record {
      ozow_site_code = request.merchant.ozow_site_code;
      ozow_private_key = request.merchant.ozow_private_key;
      ozow_api_key = request.merchant.ozow_api_key;
      ozow_is_test = request.merchant.ozow_is_test;
    }) in
      ((readiness_of env request ozow).ready ≡ true) ↔ (
        (contains request.excluded ozow ≡ false)
        × (is_present config.site_code ≡ true)
        × (is_present config.private_key ≡ true)
        × (is_foreign request.currency ≡ false))
unfolding readiness_of ozow_readiness exclusion
ozow_ready_iff env request = ground (
  arith,
  partial_missing env (record {
    ozow_site_code = request.merchant.ozow_site_code;
    ozow_private_key = request.merchant.ozow_private_key;
    ozow_api_key = request.merchant.ozow_api_key;
    ozow_is_test = request.merchant.ozow_is_test;
  }),
)

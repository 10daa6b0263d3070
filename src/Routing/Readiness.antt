-- ===== src/Routing/Readiness.antt =====
-- routing.engine.ts: whether a gateway can take a payment, and what stands in its way.
pub mod Laws
use stackaura_checkout_api.Base.{
  ℕ, String, Bool, true, false, not, Option, none, some, List, [], ◌∷◌, ◌++◌, map, ◌≡◌, refl, ◌==◌,
  ◌&&◌, ◌||◌, string_eq, contains, if◌then◌else◌, find?, ltb, arith,
}
use stackaura_checkout_api.Base.Int.{ℤ, pos, ltb_ℤ}
use stackaura_checkout_api.Base.Result.{Result, ok, err, message, Error}
use stackaura_checkout_api.Base.Text.{trim, truthy, to_upper, is_present}
use stackaura_checkout_api.Domain.{
  Env, GatewayProvider, payfast, ozow, yoco, paystack, peach, gateway_eq,
}
use stackaura_checkout_api.Gateways.Yoco.{
  YocoConfig, resolve_yoco_config, assert_yoco_config_consistency,
}
use stackaura_checkout_api.Gateways.Paystack.{
  PaystackConfig, resolve_paystack_config, assert_paystack_config_consistency,
}
use stackaura_checkout_api.Gateways.Ozow.{OzowConfig, resolve_ozow_config}

pub data Mode : Type 0 where
  test live : Mode

abbrev pub mode_of_flag : Bool → Mode
mode_of_flag true = test
mode_of_flag false = live

-- `MerchantGatewayConfig` of the routing engine
pub record MerchantGatewayConfig : Type 0 where
  pub gateway_order : Option String
  pub payfast_merchant_id : Option String
  pub payfast_merchant_key : Option String
  pub payfast_is_sandbox : Option Bool
  pub ozow_site_code : Option String
  pub ozow_private_key : Option String
  pub ozow_api_key : Option String
  pub ozow_is_test : Option Bool
  pub yoco_public_key : Option String
  pub yoco_secret_key : Option String
  pub yoco_test_mode : Option Bool
  pub paystack_secret_key : Option String
  pub paystack_test_mode : Option Bool

-- `GatewayReadiness`
pub record GatewayReadiness : Type 0 where
  pub gateway : GatewayProvider
  pub ready : Bool
  pub issues : List String
  pub mode : Option Mode

-- What the readiness of a gateway depends on; `excludedGateways ?? []` is a list.
pub record Request : Type 0 where
  pub merchant : MerchantGatewayConfig
  pub excluded : List GatewayProvider
  pub amount_cents : Option ℤ
  pub currency : Option String
  pub customer_email : Option String

-- `if (test) issues.push(text)`
abbrev pub issue_if : Bool → String → List String
issue_if b text = if b then text ∷ [] else []

abbrev pub is_nil {ℓ} : {A : Type ℓ} → List A → Bool
is_nil [] = true
is_nil (x ∷ xs) = false

-- The readiness with these issues: ready when there are none.
abbrev pub by_issues : GatewayProvider → List String → Option Mode → GatewayReadiness
by_issues gateway issues mode = record {
  gateway = gateway;
  ready = is_nil issues;
  issues = issues;
  mode = mode;
}

-- The `catch` of the Yoco and Paystack cases.
abbrev pub not_ready : GatewayProvider → List String → Error → GatewayReadiness
not_ready gateway issues e = record {
  gateway = gateway;
  ready = false;
  issues = issues ++ message e ∷ [];
  mode = none;
}

-- `currency && currency !== 'ZAR'`, of the trimmed currency in upper case.
unfoldable pub is_foreign : Option String → Bool
is_foreign none = false
is_foreign (some s) = truthy (trim s) && not (to_upper (trim s) == "ZAR")

abbrev pub is_below : Option ℤ → ℕ → Bool
is_below none n = false
is_below (some a) n = ltb_ℤ a (pos n)

abbrev pub is_blank : Option String → Bool
is_blank none = true
is_blank (some s) = not (truthy (trim s))

unfoldable pub exclusion : List GatewayProvider → GatewayProvider → List String
exclusion excluded gateway =
    issue_if (contains excluded gateway) "excluded from the current routing attempt"

-- `config` is a resolved configuration that has passed its assertion, or the error of one of them.
abbrev pub checked {ℓ} : {A : Type ℓ} → (A → Result (Unit {0})) → Result A → Result A
checked check (err e) = err e
checked check (ok config) = elim (check config) [ ok _ ↦ ok config | err e ↦ err e ]

unfoldable pub ozow_readiness : Env → Request → GatewayReadiness
ozow_readiness env request =
    let config = resolve_ozow_config env (record {
      ozow_site_code = request.merchant.ozow_site_code;
      ozow_private_key = request.merchant.ozow_private_key;
      ozow_api_key = request.merchant.ozow_api_key;
      ozow_is_test = request.merchant.ozow_is_test;
    }) in
    by_issues ozow
      (exclusion request.excluded ozow
        ++ ((if config.has_partial_merchant_config
              then "merchant Ozow config is incomplete" ∷ []
              else issue_if
                  (not (is_present config.site_code) || not (is_present config.private_key))
                  "merchant Ozow credentials are not configured")
            ++ issue_if (is_foreign request.currency) "Ozow currently supports ZAR only"))
      (some (mode_of_flag config.is_test))

yoco_checked : Request → Result YocoConfig → GatewayReadiness
yoco_checked request (err e) = not_ready yoco (exclusion request.excluded yoco) e
yoco_checked request (ok config) =
    by_issues yoco
      (exclusion request.excluded yoco
        ++ (issue_if (not (is_present config.public_key) || not (is_present config.secret_key))
              "merchant Yoco credentials are not configured"
            ++ (issue_if (is_foreign request.currency) "Yoco currently supports ZAR only"
                ++ issue_if (is_below request.amount_cents 200)
                    "Yoco requires a minimum amount of 200 cents")))
      (some (mode_of_flag config.test_mode))

unfoldable pub yoco_readiness : Env → Request → GatewayReadiness
unfolding yoco_checked
yoco_readiness env request = yoco_checked request (
    checked assert_yoco_config_consistency (
      resolve_yoco_config env (record {
        yoco_public_key = request.merchant.yoco_public_key;
        yoco_secret_key = request.merchant.yoco_secret_key;
        yoco_test_mode = request.merchant.yoco_test_mode;
      })))

-- The Paystack configuration of the merchant, if it is consistent.
abbrev pub paystack_config : Env → MerchantGatewayConfig → Result PaystackConfig
paystack_config env merchant = checked assert_paystack_config_consistency (
    ok (
      resolve_paystack_config env (record {
        paystack_secret_key = merchant.paystack_secret_key;
        paystack_test_mode = merchant.paystack_test_mode;
      })))

-- The two Paystack cases of the file, which differ in the issues that they add.
paystack_checked : List GatewayProvider → List String → Result PaystackConfig → GatewayReadiness
paystack_checked excluded more (err e) = not_ready paystack (exclusion excluded paystack) e
paystack_checked excluded more (ok config) =
    by_issues paystack
      (exclusion excluded paystack
        ++ (issue_if (not (is_present config.secret_key))
              "merchant Paystack credentials are not configured"
            ++ more))
      (some (mode_of_flag config.test_mode))

unfoldable pub paystack_readiness : Env → Request → GatewayReadiness
unfolding paystack_checked
paystack_readiness env request =
    paystack_checked request.excluded
      (issue_if (is_blank request.customer_email) "Paystack requires customerEmail")
      (paystack_config env request.merchant)

unfoldable pub readiness_of : Env → Request → GatewayProvider → GatewayReadiness
unfolding ozow_readiness yoco_readiness paystack_readiness
readiness_of env request ozow = ozow_readiness env request
readiness_of env request yoco = yoco_readiness env request
readiness_of env request paystack = paystack_readiness env request
readiness_of env request gateway = record {
  gateway = gateway;
  ready = false;
  issues = "unsupported gateway" ∷ [];
  mode = none;
}

abbrev pub readiness_rail_order : List GatewayProvider
readiness_rail_order = paystack ∷ yoco ∷ ozow ∷ []

unfoldable pub get_gateway_readiness : Env → Request → List GatewayReadiness
get_gateway_readiness env request = map (readiness_of env request) readiness_rail_order

abbrev pub sandbox_mode : Option Bool → Option Mode
sandbox_mode none = none
sandbox_mode (some b) = some (mode_of_flag b)

unfoldable pub legacy_gateway_readiness : Env → Request → GatewayProvider → Option GatewayReadiness
unfolding paystack_checked
legacy_gateway_readiness env request payfast = some (
    by_issues payfast
      (exclusion request.excluded payfast
        ++ issue_if
            (not (is_present request.merchant.payfast_merchant_id)
              || not (is_present request.merchant.payfast_merchant_key))
            "merchant PayFast credentials are not configured")
      (sandbox_mode request.merchant.payfast_is_sandbox))
legacy_gateway_readiness env request paystack =
    some (paystack_checked request.excluded [] (paystack_config env request.merchant))
legacy_gateway_readiness env request _ = none

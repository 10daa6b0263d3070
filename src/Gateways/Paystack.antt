-- ===== src/Gateways/Paystack.antt =====
-- src/gateways/paystack.config.ts: the secret key of a merchant's Paystack account and its mode.
use stackaura_checkout_api.Base.{
  String, Bool, not, Option, none, some, ◌≡◌, refl, ◌↔◌, string_eq, arith, inl, inr, Option-cases,
  ◌or_else◌, ◌otherwise◌,
}
use stackaura_checkout_api.Base.Result.{Result, ok, plain, require}
use stackaura_checkout_api.Base.Text.{trim_to_null, trim_to_null_idem}
use stackaura_checkout_api.Domain.{Env}
use stackaura_checkout_api.Payments.Monetization.{parse_boolean_env}
use stackaura_checkout_api.Gateways.Yoco.{infer_key_mode, conflicts, not_production, Agrees}

-- `PaystackConfigSource`
pub record PaystackConfigSource : Type 0 where
  pub paystack_secret_key : Option String
  pub paystack_test_mode : Option Bool

-- `ResolvedPaystackConfig`, without its constant URLs.
pub record PaystackConfig : Type 0 where
  pub secret_key : Option String
  pub test_mode : Bool

unfoldable pub detect_paystack_mode_from_secret_key : Option String → Option Bool
detect_paystack_mode_from_secret_key secret_key =
    infer_key_mode (trim_to_null secret_key) "sk_test_" "sk_live_"

unfoldable pub resolve_paystack_config : Env → PaystackConfigSource → PaystackConfig
unfolding detect_paystack_mode_from_secret_key
resolve_paystack_config env source =
    let secret_key =
      trim_to_null source.paystack_secret_key
      or_else trim_to_null (env.var "PAYSTACK_SECRET_KEY") in
    record {
      secret_key = secret_key;
      test_mode =
          source.paystack_test_mode
          otherwise detect_paystack_mode_from_secret_key secret_key
          otherwise parse_boolean_env (env.var "PAYSTACK_TEST_MODE")
          otherwise not_production env;
    }

unfoldable pub assert_paystack_config_consistency : PaystackConfig → Result (Unit {0})
assert_paystack_config_consistency config =
    require
      (not (
        conflicts (detect_paystack_mode_from_secret_key config.secret_key) (some config.test_mode)))
      (plain "Paystack secret key does not match the selected testMode")

mode_iff :
    (s : Option Bool) (t : Bool)
    → (require
          (not (conflicts s (some t)))
          (plain "Paystack secret key does not match the selected testMode")
        ≡ ok tt)
      ↔ Agrees s t
mode_iff none t = ((λ h. tt), (λ h. refl))
mode_iff (some s) t = ((λ h. ground arith), (λ h. ground arith))

-- What a resolved configuration is when it is handed on as a source.
abbrev pub paystack_source_of : PaystackConfig → PaystackConfigSource
paystack_source_of config = record {
  paystack_secret_key = config.secret_key;
  paystack_test_mode = some config.test_mode;
}

or_else_self : (o : Option String) → (o or_else o) ≡ o
or_else_self none = refl
or_else_self (some s) = refl

or_else_idem :
    (o e : Option String)
    → (trim_to_null (trim_to_null o or_else trim_to_null e) or_else trim_to_null e)
      ≡ (trim_to_null o or_else trim_to_null e)
or_else_idem o e = elim (Option-cases (trim_to_null o)) [
  | inl p ↦ rw (p, trim_to_null_idem) (or_else_self (trim_to_null e))
  | inr (t, p) ↦ let q : trim_to_null (some t) ≡ some t = rw p at (trim_to_null_idem o) in rw (p, q)
]

-- Resolving a resolved configuration again changes nothing, with or without keys in the
-- environment.
pub resolve_paystack_config_idem :
    (env : Env) (source : PaystackConfigSource)
    → let config = resolve_paystack_config env source in
      resolve_paystack_config env (paystack_source_of config) ≡ config
unfolding resolve_paystack_config
resolve_paystack_config_idem env source =
    rw (or_else_idem source.paystack_secret_key (env.var "PAYSTACK_SECRET_KEY"))

-- A configuration passes the assertion exactly when the mode that its key shows by its prefix,
-- where it shows one, is the selected mode.
pub assert_paystack_config_consistency_iff :
    (config : PaystackConfig)
    → (assert_paystack_config_consistency config ≡ ok tt)
      ↔ Agrees (detect_paystack_mode_from_secret_key config.secret_key) config.test_mode
unfolding assert_paystack_config_consistency
assert_paystack_config_consistency_iff config =
    mode_iff (detect_paystack_mode_from_secret_key config.secret_key) config.test_mode

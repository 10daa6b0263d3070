-- ===== src/Payments/Monetization.antt =====
-- src/payments/monetization.config.ts: plans, fee policies and the fee of a payment. A JavaScript
-- number is an integer here, and `none` stands for `null`, `undefined` and what is not finite.
pub mod Laws
use Prim.Native.String.{◌++◌}
use stackaura_checkout_api.Base.{
  ℕ, ◌+◌, ◌*◌, ◌/◌, ◌<◌, String, Bool, true, false, Option, none, some, List, [], ◌∷◌, ◌==◌, ◌&&◌,
  ◌||◌, contains, find?, any, ltb, leb, if◌then◌else◌, max, string_eq, ◌otherwise◌,
}
use stackaura_checkout_api.Base.Int.{ℤ, pos, negsuc, pos_part}
use stackaura_checkout_api.Base.Text.{trim, truthy, to_lower, to_upper, trim_to_null}
use stackaura_checkout_api.Domain.{Env}

-- `MerchantPlanCode`
pub data PlanCode : Type 0 where
  starter growth scale : PlanCode

-- `PlatformFeeRuleType`
pub data RuleType : Type 0 where
  no_fee fixed percentage fixed_plus_percentage : RuleType

pub data PolicySource : Type 0 where
  platform_default merchant_plan merchant_override : PolicySource

pub data PlanSource : Type 0 where
  merchant_assigned platform_default : PlanSource

-- `ResolvedPlatformFeePolicy`
pub record FeePolicy : Type 0 where
  pub fixed_fee_cents : ℕ
  pub percentage_bps : ℕ
  pub rule_type : RuleType
  pub source : PolicySource
  pub merchant_override_applied : Bool

-- `PlatformFeeBreakdown`
pub record FeeBreakdown : Type 0 where
  pub base_amount_cents : ℕ
  pub platform_fee_cents : ℕ
  pub charge_amount_cents : ℕ
  pub merchant_net_cents : ℕ

-- `RoutingPlanFeatures`
pub record PlanFeatures : Type 0 where
  pub plan_code : PlanCode
  pub manual_gateway_selection : Bool
  pub auto_routing : Bool
  pub fallback : Bool
  pub source : PolicySource

-- `ResolvedMerchantPlan`
pub record MerchantPlan : Type 0 where
  pub code : PlanCode
  pub source : PlanSource
  pub fee_policy : FeePolicy
  pub routing_features : PlanFeatures

-- `MerchantPlanResolverSource`
pub record PlanRow : Type 0 where
  pub merchant_plan_code : Option String
  pub merchant_platform_fee_bps : Option ℤ
  pub merchant_platform_fee_fixed_cents : Option ℤ

unfoldable pub builtin_plan_features : PlanCode → PlanFeatures
builtin_plan_features starter = record {
  plan_code = starter;
  manual_gateway_selection = false;
  auto_routing = true;
  fallback = false;
  source = merchant_plan;
}
builtin_plan_features growth = record {
  plan_code = growth;
  manual_gateway_selection = true;
  auto_routing = true;
  fallback = true;
  source = merchant_plan;
}
builtin_plan_features scale = record {
  plan_code = scale;
  manual_gateway_selection = true;
  auto_routing = true;
  fallback = true;
  source = merchant_plan;
}

-- A flag of the environment in lower case without surrounding white space.
boolean_word : String → Option Bool
boolean_word s =
    if contains ("1" ∷ "true" ∷ "yes" ∷ "y" ∷ "on" ∷ []) s
    then some true
    else if contains ("0" ∷ "false" ∷ "no" ∷ "n" ∷ "off" ∷ []) s
    then some false
    else none

-- `parseBooleanEnv`; the empty text is no word of either list.
unfoldable pub parse_boolean_env : Option String → Option Bool
unfolding boolean_word
parse_boolean_env none = none
parse_boolean_env (some s) = boolean_word (to_lower (trim s))

-- Not finite is 0, and what is below 0 becomes 0.
unfoldable pub normalize_fee_component : Option ℤ → ℕ
normalize_fee_component none = 0
normalize_fee_component (some n) = pos_part n

unfoldable pub resolve_rule_type : ℕ → ℕ → RuleType
resolve_rule_type fixed_fee_cents percentage_bps =
    if ltb 0 fixed_fee_cents && ltb 0 percentage_bps
    then fixed_plus_percentage
    else if ltb 0 fixed_fee_cents
    then fixed
    else if ltb 0 percentage_bps
    then percentage
    else no_fee

-- The plan that a normalised text names.
plan_word : String → Option PlanCode
plan_word s =
    if s == "starter"
    then some starter
    else if s == "growth"
    then some growth
    else if s == "scale"
    then some scale
    else none

unfoldable pub normalize_merchant_plan_code : Option String → Option PlanCode
unfolding plan_word
normalize_merchant_plan_code none = none
normalize_merchant_plan_code (some s) =
    if truthy (trim s) then plan_word (to_lower (trim s)) else none

abbrev pub plan_text : PlanCode → String
plan_text starter = "starter"
plan_text growth = "growth"
plan_text scale = "scale"

-- A policy from its two components.
abbrev pub policy_of : ℕ → ℕ → PolicySource → Bool → FeePolicy
policy_of fixed_fee_cents percentage_bps source applied = record {
  fixed_fee_cents = fixed_fee_cents;
  percentage_bps = percentage_bps;
  rule_type = resolve_rule_type fixed_fee_cents percentage_bps;
  source = source;
  merchant_override_applied = applied;
}

unfoldable pub resolve_merchant_override_fee_policy : PlanRow → Option FeePolicy
unfolding normalize_fee_component resolve_rule_type
resolve_merchant_override_fee_policy row =
    let fixed_fee_cents = normalize_fee_component row.merchant_platform_fee_fixed_cents in
    let percentage_bps = normalize_fee_component row.merchant_platform_fee_bps in
    if leb fixed_fee_cents 0 && leb percentage_bps 0
    then none
    else some (policy_of fixed_fee_cents percentage_bps merchant_override true)

-- `Math.round` of a quotient that is not negative: halves go up.
abbrev pub round_div : ℕ → ℕ → ℕ
round_div a b = (a + b / 2) / b

unfoldable pub compute_platform_fee_breakdown : Option ℤ → FeePolicy → FeeBreakdown
unfolding normalize_fee_component
compute_platform_fee_breakdown amount_cents policy =
    let base_amount_cents = normalize_fee_component amount_cents in
    let variable_fee_cents = round_div (base_amount_cents * policy.percentage_bps) 10000 in
    let platform_fee_cents = policy.fixed_fee_cents + variable_fee_cents in
    record {
      base_amount_cents = base_amount_cents;
      platform_fee_cents = platform_fee_cents;
      charge_amount_cents = base_amount_cents + platform_fee_cents;
      merchant_net_cents = base_amount_cents;
    }

abbrev has_value : Option String → Bool
has_value none = false
has_value (some s) = truthy (trim s)

abbrev resolve_fee_fixed_env_keys : String → List String
resolve_fee_fixed_env_keys prefix = (prefix ++ "_FIXED") ∷ (prefix ++ "_FIXED_CENTS") ∷ []

abbrev resolve_fee_bps_env_keys : String → List String
resolve_fee_bps_env_keys prefix = (prefix ++ "_BPS") ∷ []

unfoldable pub plan_fee_prefix : PlanCode → String
plan_fee_prefix code = ("STACKAURA_PLAN_" ++ to_upper (plan_text code)) ++ "_FEE"

module _ (env : Env) where
  -- `hasEnvValue(process.env[key])`
  unfoldable pub has_env_value : String → Bool
  has_env_value key = has_value (env.var key)

  -- `parseIntegerEnv(process.env[key])`
  unfoldable pub parse_integer_env : Option String → Option ℤ
  parse_integer_env none = some (pos 0)
  parse_integer_env (some s) = some (env.number (trim s) otherwise pos 0)

  read_key : Option String → Option ℤ
  unfolding parse_integer_env
  read_key none = some (pos 0)
  read_key (some key) = parse_integer_env (env.var key)

  unfoldable pub read_first_configured_integer_env : List String → Option ℤ
  unfolding read_key has_env_value
  read_first_configured_integer_env keys = read_key (find? has_env_value keys)

  unfoldable pub has_configured_env_key : List String → Bool
  unfolding has_env_value
  has_configured_env_key keys = any has_env_value keys

  unfoldable pub resolve_default_merchant_plan_code : PlanCode
  unfolding normalize_merchant_plan_code
  resolve_default_merchant_plan_code =
      normalize_merchant_plan_code (env.var "STACKAURA_DEFAULT_MERCHANT_PLAN")
      otherwise normalize_merchant_plan_code (env.var "STACKAURA_ROUTING_PLAN")
      otherwise growth

  -- The two components that the environment sets under a prefix.
  env_policy : String → PolicySource → FeePolicy
  unfolding read_first_configured_integer_env normalize_fee_component
  env_policy prefix source =
      policy_of
        (normalize_fee_component
          (read_first_configured_integer_env (resolve_fee_fixed_env_keys prefix)))
        (normalize_fee_component
          (read_first_configured_integer_env (resolve_fee_bps_env_keys prefix)))
        source false

  unfoldable pub resolve_platform_default_fee_policy : FeePolicy
  unfolding env_policy
  resolve_platform_default_fee_policy =
      env_policy "STACKAURA_PLATFORM_FEE" PolicySource.platform_default

  unfoldable pub has_plan_fee_override : PlanCode → Bool
  unfolding has_configured_env_key plan_fee_prefix
  has_plan_fee_override code =
      has_configured_env_key (resolve_fee_fixed_env_keys (plan_fee_prefix code))
      || has_configured_env_key (resolve_fee_bps_env_keys (plan_fee_prefix code))

  unfoldable pub resolve_plan_fee_policy : PlanCode → FeePolicy → FeePolicy
  unfolding env_policy has_plan_fee_override
  resolve_plan_fee_policy code fallback =
      if has_plan_fee_override code
      then env_policy (plan_fee_prefix code) merchant_plan
      else fallback

  unfoldable pub resolve_platform_fee_policy : PlanRow → FeePolicy
  unfolding resolve_platform_default_fee_policy resolve_merchant_override_fee_policy
  resolve_platform_fee_policy row =
      resolve_merchant_override_fee_policy row otherwise resolve_platform_default_fee_policy

  unfoldable pub resolve_routing_plan_features : PlanFeatures
  unfolding resolve_default_merchant_plan_code parse_boolean_env
  resolve_routing_plan_features = record {
    plan_code = resolve_default_merchant_plan_code;
    manual_gateway_selection =
        parse_boolean_env (env.var "STACKAURA_FEATURE_MANUAL_GATEWAY_SELECTION") otherwise true;
    auto_routing = parse_boolean_env (env.var "STACKAURA_FEATURE_AUTO_ROUTING") otherwise true;
    fallback = parse_boolean_env (env.var "STACKAURA_FEATURE_FALLBACK") otherwise true;
    source = PolicySource.platform_default;
  }

  -- The features and the origin of the plan, by whether the merchant has one of its own.
  plan_features : Option PlanCode → PlanFeatures
  unfolding resolve_routing_plan_features builtin_plan_features
  plan_features none = resolve_routing_plan_features
  plan_features (some code) = builtin_plan_features code

  abbrev plan_source : Option PlanCode → PlanSource
  plan_source none = PlanSource.platform_default
  plan_source (some code) = merchant_assigned

  unfoldable pub resolve_merchant_plan : PlanRow → MerchantPlan
  unfolding plan_features resolve_routing_plan_features resolve_platform_default_fee_policy
      resolve_plan_fee_policy resolve_merchant_override_fee_policy normalize_merchant_plan_code
  resolve_merchant_plan row =
      let merchant_plan_code = normalize_merchant_plan_code row.merchant_plan_code in
      let code = merchant_plan_code otherwise resolve_routing_plan_features.plan_code in
      record {
        code = code;
        source = plan_source merchant_plan_code;
        fee_policy =
            resolve_merchant_override_fee_policy row
            otherwise resolve_plan_fee_policy code resolve_platform_default_fee_policy;
        routing_features = plan_features merchant_plan_code;
      }

-- ===== src/Payments/Monetization/Laws.antt =====
-- Fees: what a payer is charged, and which policy a merchant gets.
use stackaura_checkout_api.Base.{
  ℕ, zero, ◌+◌, ◌*◌, ◌<◌, ◌≤◌, String, Bool, true, false, Option, none, some, ◌&&◌, ◌↔◌, ◌⊎◌, ◌≡◌,
  refl, ◌otherwise◌, leb, arith, inl, inr, ◌≢◌, Bool-cases,
}
use stackaura_checkout_api.Base.Int.{pos}
use stackaura_checkout_api.Domain.{Env}
use stackaura_checkout_api.Payments.Monetization.{
  PlanCode, RuleType, PolicySource, merchant_override, merchant_plan, FeePolicy, PlanRow,
  compute_platform_fee_breakdown, resolve_rule_type, normalize_fee_component,
  resolve_merchant_override_fee_policy, resolve_platform_default_fee_policy,
  resolve_plan_fee_policy, policy_of, resolve_merchant_plan, has_plan_fee_override, env_policy,
  round_div, normalize_merchant_plan_code, plan_features, resolve_default_merchant_plan_code,
  merchant_assigned, plan_source,
}

-- The rounded quotient is the nearest integer to a * p / 10000.
round_div_bounds :
    (x : ℕ) → (10000 * round_div x 10000 ≤ x + 5000) × (x < 10000 * round_div x 10000 + 5001)
round_div_bounds x = omega arith

-- For an amount of at least 0 cents, the payer is charged the amount and the platform's fee on top
-- of it and the merchant nets the whole amount; the fee, which no bound cuts at the amount, differs
-- from the sum of its fixed part and amount * bps / 10000 by at most half a cent (both bounds are stated 10000
-- times larger).
pub breakdown_exact :
    (amount : ℕ) (policy : FeePolicy)
    → let b = compute_platform_fee_breakdown (some (pos amount)) policy in
      (b.charge_amount_cents ≡ amount + b.platform_fee_cents)
      × (b.merchant_net_cents ≡ amount)
      × (10000 * b.platform_fee_cents
          ≤ 10000 * policy.fixed_fee_cents + amount * policy.percentage_bps + 5000)
      × (10000 * policy.fixed_fee_cents + amount * policy.percentage_bps
          ≤ 10000 * b.platform_fee_cents + 5000)
unfolding compute_platform_fee_breakdown
breakdown_exact amount policy = (
  refl,
  refl,
  omega (arith, round_div_bounds (amount * policy.percentage_bps)),
  omega (arith, round_div_bounds (amount * policy.percentage_bps)),
)

mul_mono : (a b p : ℕ) → a < b → a * p ≤ b * p
mul_mono a b p h = grind arith

-- Under one policy a larger amount never has a smaller fee, and is charged strictly more.
pub breakdown_mono :
    (a b : ℕ) (policy : FeePolicy)
    → a < b
    → ((compute_platform_fee_breakdown (some (pos a)) policy).platform_fee_cents
        ≤ (compute_platform_fee_breakdown (some (pos b)) policy).platform_fee_cents)
      × ((compute_platform_fee_breakdown (some (pos a)) policy).charge_amount_cents
          < (compute_platform_fee_breakdown (some (pos b)) policy).charge_amount_cents)
unfolding compute_platform_fee_breakdown
breakdown_mono a b policy h =
    let m = mul_mono a b policy.percentage_bps h in (omega (arith, m), omega (arith, m))

-- What the rule type of a policy says of its components.
abbrev pub Describes : RuleType → ℕ → ℕ → Type 0
Describes RuleType.no_fee f p = (f ≡ 0) × (p ≡ 0)
Describes RuleType.fixed f p = (0 < f) × (p ≡ 0)
Describes RuleType.percentage f p = (f ≡ 0) × (0 < p)
Describes RuleType.fixed_plus_percentage f p = (0 < f) × (0 < p)

-- The rule type is that of the components, and the flag says that the merchant's own row set them.
abbrev pub IsConsistent : FeePolicy → Type 0
IsConsistent policy =
    Describes policy.rule_type policy.fixed_fee_cents policy.percentage_bps
    × ((policy.merchant_override_applied ≡ true) ↔ (policy.source ≡ merchant_override))

resolve_rule_type-Describes : (f p : ℕ) → Describes (resolve_rule_type f p) f p
unfolding resolve_rule_type
resolve_rule_type-Describes zero zero = (refl, refl)
resolve_rule_type-Describes f p = ground arith

-- The components of a merchant's own row that count: at least one is above 0.
abbrev pub HasOverride : PlanRow → Type 0
HasOverride row =
    (0 < normalize_fee_component row.merchant_platform_fee_fixed_cents)
    ⊎ (0 < normalize_fee_component row.merchant_platform_fee_bps)

policy_of-IsConsistent :
    (f p : ℕ) (source : PolicySource) (applied : Bool)
    → ((applied ≡ true) ↔ (source ≡ merchant_override))
    → IsConsistent (policy_of f p source applied)
policy_of-IsConsistent f p source applied h = (resolve_rule_type-Describes f p, h)

-- The override is there exactly when the row has a component above 0, and holds its components.
override_cases :
    (row : PlanRow)
    → ((resolve_merchant_override_fee_policy row ≡ none) × (¬ (HasOverride row)))
      ⊎ ((resolve_merchant_override_fee_policy row
            ≡ some (
                policy_of
                  (normalize_fee_component row.merchant_platform_fee_fixed_cents)
                  (normalize_fee_component row.merchant_platform_fee_bps)
                  merchant_override
                  true))
          × HasOverride row)
unfolding resolve_merchant_override_fee_policy
override_cases row =
    elim (Bool-cases (
      leb (normalize_fee_component row.merchant_platform_fee_fixed_cents) 0
      && leb (normalize_fee_component row.merchant_platform_fee_bps) 0)) [
        | inl t ↦ inl (rw t, λ h. ground arith)
        | inr f ↦ inr (rw f, ground arith)
      ]

module _ (env : Env) where
  env_policy-IsConsistent :
      (prefix : String) (source : PolicySource)
      → source ≢ merchant_override
      → IsConsistent (env_policy env prefix source)
  unfolding env_policy
  env_policy-IsConsistent prefix source h =
      policy_of-IsConsistent _ _ source false ((λ e. cc), (λ e. absurd (h e)))

  plan_policy-IsConsistent :
      (code : PlanCode)
      → IsConsistent (resolve_plan_fee_policy env code (resolve_platform_default_fee_policy env))
  unfolding resolve_plan_fee_policy resolve_platform_default_fee_policy
  plan_policy-IsConsistent code = elim (Bool-cases (has_plan_fee_override env code)) [
    | inl t ↦ rw t (env_policy-IsConsistent _ merchant_plan (λ e. cc))
    | inr f ↦
        rw f
          (env_policy-IsConsistent "STACKAURA_PLATFORM_FEE" PolicySource.platform_default (λ e. cc))
  ]

  -- Whatever the environment and the merchant's row, the fee policy that the merchant gets is
  -- consistent: its rule type says exactly which of its two components are above 0, and it is
  -- flagged as an override exactly when its source is the merchant's own row.
  pub fee_policy-IsConsistent :
      (row : PlanRow) → IsConsistent (resolve_merchant_plan env row).fee_policy
  unfolding resolve_merchant_plan
  fee_policy-IsConsistent row = elim (override_cases row) [
    | inl (e, h) ↦ rw e (plan_policy-IsConsistent _)
    | inr (e, h) ↦ rw e (
        policy_of-IsConsistent (normalize_fee_component row.merchant_platform_fee_fixed_cents)
          (normalize_fee_component row.merchant_platform_fee_bps) merchant_override true
          ((λ p. refl), (λ p. refl)))
  ]

  plan_policy_source :
      (code : PlanCode)
      → (resolve_plan_fee_policy env code (resolve_platform_default_fee_policy env)).source
        ≢ merchant_override
  unfolding resolve_plan_fee_policy resolve_platform_default_fee_policy env_policy
  plan_policy_source code = elim (Bool-cases (has_plan_fee_override env code)) [
    | inl t ↦ rw t (λ e. cc)
    | inr f ↦ rw f (λ e. cc)
  ]

  -- The policy comes from the merchant's own row exactly when one of the row's two components is
  -- above 0; a component that is missing or negative counts as 0.
  pub fee_source_iff :
      (row : PlanRow)
      → ((resolve_merchant_plan env row).fee_policy.source ≡ merchant_override) ↔ HasOverride row
  unfolding resolve_merchant_plan
  fee_source_iff row = elim (override_cases row) [
    | inl (e, h) ↦ rw e ((λ p. absurd (plan_policy_source _ p)), (λ k. absurd (h k)))
    | inr (e, h) ↦ rw e ((λ p. h), (λ k. refl))
  ]

  features_of_code :
      (o : Option PlanCode)
      → ((plan_features env o).plan_code ≡ (o otherwise resolve_default_merchant_plan_code env))
        × ((plan_source env o ≡ merchant_assigned) ↔ ((plan_features env o).source ≡ merchant_plan))
  unfolding plan_features
  features_of_code none = ground arith
  features_of_code (some code) = ground arith

  -- The features are those of the plan that the merchant is on, and they come from the built-in
  -- table exactly when the merchant was assigned that plan itself.
  pub plan_coherent :
      (row : PlanRow)
      → let plan = resolve_merchant_plan env row in
        (plan.routing_features.plan_code ≡ plan.code)
        × ((plan.source ≡ merchant_assigned) ↔ (plan.routing_features.source ≡ merchant_plan))
  unfolding resolve_merchant_plan
  plan_coherent row = features_of_code (normalize_merchant_plan_code row.merchant_plan_code)

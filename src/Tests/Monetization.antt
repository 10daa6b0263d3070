-- ===== src/Tests/Monetization.antt =====
-- Fees and plans of one merchant.
use stackaura_checkout_api.Base.{false, none, some, ◌≡◌, refl, ◌+◌, ◌*◌, ◌≤◌}
use stackaura_checkout_api.Base.Int.{pos}
use stackaura_checkout_api.Domain.{Env}
use stackaura_checkout_api.Payments.Monetization.{
  FeePolicy, PlanRow, policy_of, compute_platform_fee_breakdown, PolicySource,
}
use stackaura_checkout_api.Payments.Monetization.Laws.{breakdown_exact}

abbrev no_env : Env
no_env = record { var = λ name. none; number = λ text. none }

abbrev policy : FeePolicy
policy = policy_of 100 250 PolicySource.platform_default false

abbrev row : PlanRow
row = record {
  merchant_plan_code = some "growth";
  merchant_platform_fee_bps = some (pos 150);
  merchant_platform_fee_fixed_cents = none;
}

-- 2.5 % of 10.33 and one rand.
fee_of_1033 : (compute_platform_fee_breakdown (some (pos 1033)) policy).charge_amount_cents ≡ 1159
unfolding compute_platform_fee_breakdown
fee_of_1033 = refl

breakdown_exact_example :
    let b = compute_platform_fee_breakdown (some (pos 1033)) policy in
    (b.charge_amount_cents ≡ 1033 + b.platform_fee_cents)
    × (b.merchant_net_cents ≡ 1033)
    × (10000 * b.platform_fee_cents ≤ 10000 * 100 + 1033 * 250 + 5000)
    × (10000 * 100 + 1033 * 250 ≤ 10000 * b.platform_fee_cents + 5000)
breakdown_exact_example = breakdown_exact 1033 policy

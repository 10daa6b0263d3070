-- ===== src/Payments/CreateRequest.antt =====
-- src/payments/payments.service.ts: the request to create a payment and what is read from it.
use Prim.Native.String.{[], ◌∷◌}
use stackaura_checkout_api.Base.{
  ℕ, zero, suc, String, not, Option, none, some, [], ◌∷◌, ◌==◌, ltb, string_eq, if◌then◌else◌,
  ◌otherwise◌,
}
use stackaura_checkout_api.Base.Int.{ℤ, pos_part}
use stackaura_checkout_api.Base.Text.{trim, truthy, to_upper, non_blank, ◌<>◌}
use stackaura_checkout_api.Base.Result.{bad_request, Result, ok, err, require}
use stackaura_checkout_api.Domain.{GatewayProvider}
use stackaura_checkout_api.Payments.Monetization.{PlanFeatures}
use stackaura_checkout_api.Routing.Decide.{RequestedGateway, only, auto, unspecified}

-- `CreatePaymentDto`. A number is what `Number(value)` gives, and `none` where that is no integer.
pub record CreatePaymentDto : Type 0 where
  pub amount_cents : Option ℤ
  pub currency : Option String
  pub reference : Option String
  pub gateway : Option String
  pub customer_email : Option String
  pub description : Option String
  pub expires_in_minutes : Option (Option ℤ)
  pub payment_method_preference : Option String
  pub item_name : Option String
  pub return_url : Option String
  pub cancel_url : Option String
  pub error_url : Option String
  pub notify_url : Option String
  pub bank_reference : Option String

unfoldable pub parse_positive_int : String → Option ℤ → Result ℕ
parse_positive_int field_name none = err (bad_request (field_name <> " must be a positive integer"))
parse_positive_int field_name (some n) =
    if ltb 0 (pos_part n)
    then ok (pos_part n)
    else err (bad_request (field_name <> " must be a positive integer"))

-- The provider with a name in upper case.
abbrev pub gateway_word : String → Option GatewayProvider
gateway_word s =
    if s == "PAYFAST"
    then some GatewayProvider.payfast
    else if s == "OZOW"
    then some GatewayProvider.ozow
    else if s == "YOCO"
    then some GatewayProvider.yoco
    else if s == "PAYSTACK"
    then some GatewayProvider.paystack
    else if s == "PEACH"
    then some GatewayProvider.peach
    else none

abbrev only_known : Option GatewayProvider → Result RequestedGateway
only_known none =
    err (bad_request "gateway must be one of AUTO, PAYFAST, OZOW, YOCO, PAYSTACK, PEACH")
only_known (some g) = ok (only g)

unfoldable pub parse_requested_gateway : Option String → Result RequestedGateway
parse_requested_gateway none = ok unspecified
parse_requested_gateway (some value) =
    let raw = to_upper (trim value) in
    if not (truthy raw)
    then ok unspecified
    else if raw == "AUTO"
    then ok auto
    else only_known (gateway_word raw)

-- `text.slice(0, n)`
abbrev pub take_text : ℕ → String → String
take_text zero s = []
take_text (suc n) [] = []
take_text (suc n) (c ∷ s) = c ∷ take_text n s

unfoldable pub normalize_idempotency_key : Option String → Option String
normalize_idempotency_key none = none
normalize_idempotency_key (some value) =
    if truthy (trim value) then some (take_text 255 (trim value)) else none

unfoldable pub assert_routing_plan_allows : RequestedGateway → PlanFeatures → Result (Unit {0})
assert_routing_plan_allows (only g) plan =
    require plan.manual_gateway_selection
      (bad_request "Manual gateway selection is not enabled for this plan")
assert_routing_plan_allows requested plan =
    require plan.auto_routing (bad_request "AUTO routing is not enabled for this plan")

abbrev pub text_or : Option String → String → String
text_or none default = default
text_or (some s) default = non_blank s otherwise default

-- ===== src/Routing/Decide.antt =====
-- routing.engine.ts: the decision for a payment, and the errors when no gateway can take it.
pub mod Laws
use stackaura_checkout_api.Base.{
  ℕ, ◌+◌, String, Bool, true, false, not, Option, none, some, List, [], ◌∷◌, ◌++◌, map, ◌==◌, ◌&&◌,
  ◌||◌, string_eq, contains, if◌then◌else◌, find?, filter, any, ◌or_else◌, head?,
}
use stackaura_checkout_api.Base.Result.{Result, ok, err, Error, bad_request}
use stackaura_checkout_api.Base.Text.{trim, truthy, to_upper, ◌<>◌}
use stackaura_checkout_api.Domain.{
  Env, GatewayProvider, payfast, ozow, yoco, paystack, peach, gateway_eq,
}
use stackaura_checkout_api.Routing.Readiness.{
  MerchantGatewayConfig, GatewayReadiness, Mode, Request, readiness_rail_order,
  get_gateway_readiness, legacy_gateway_readiness,
}

-- `GatewayProvider | 'AUTO' | null`
pub data RequestedGateway : Type 0 where
  only : GatewayProvider → RequestedGateway
  auto unspecified : RequestedGateway

-- `RoutingMode`, `RoutingSelectionMode` and `RoutingPaymentMethodPreference` without its `null`.
pub data RoutingMode : Type 0 where
  strict_priority failover_priority : RoutingMode

pub data SelectionMode : Type 0 where
  explicit automatic : SelectionMode

pub data Preference : Type 0 where
  card bank_eft : Preference

-- The texts of a candidate's `reason`, each with what it prints.
pub data Reason : Type 0 where
  explicit_gateway_request auto_eligible_gateway : Reason
  priority_is : ℕ → Reason
  mode_is : Mode → Reason
  payment_method_preference_is : Preference → Reason

-- `RoutingCandidate`
pub record Candidate : Type 0 where
  pub gateway : GatewayProvider
  pub priority : ℕ
  pub reason : List Reason

-- `RoutingDecision`; `rankedGateways` is always `eligibleGateways`.
pub record Decision : Type 0 where
  pub mode : RoutingMode
  pub selection_mode : SelectionMode
  pub requested_gateway : RequestedGateway
  pub selected_gateway : GatewayProvider
  pub routing_reason : List Reason
  pub eligible_gateways : List Candidate
  pub skipped_gateways : List GatewayReadiness
  pub readiness : List GatewayReadiness

-- A normalised payment method.
preference_word : String → Option Preference
preference_word s =
    if contains ("BANK_EFT" ∷ "BANK" ∷ "EFT" ∷ "INSTANT_EFT" ∷ []) s
    then some bank_eft
    else if contains ("CARD" ∷ "CARDS" ∷ "CARD_PAYMENT" ∷ []) s
    then some card
    else none

unfoldable pub normalize_payment_method_preference : Option String → Option Preference
unfolding preference_word
normalize_payment_method_preference none = none
normalize_payment_method_preference (some s) =
    if truthy (trim s) then preference_word (to_upper (trim s)) else none

unfoldable pub resolve_auto_rail_order : Option Preference → List GatewayProvider
resolve_auto_rail_order (some bank_eft) = ozow ∷ yoco ∷ paystack ∷ []
resolve_auto_rail_order _ = paystack ∷ yoco ∷ ozow ∷ []

-- The readiness of each gateway of an order, where there is one that is ready.
unfoldable pub ready_in_order : List GatewayReadiness → List GatewayProvider → List GatewayReadiness
ready_in_order readiness [] = []
ready_in_order readiness (g ∷ order) =
    let rest = ready_in_order readiness order in
    elim (find? (λ r. r.gateway == g) readiness) [
      | none ↦ rest
      | some r ↦ if r.ready then r ∷ rest else rest
    ]

abbrev mode_reason : Option Mode → List Reason
mode_reason none = []
mode_reason (some m) = mode_is m ∷ []

abbrev preference_reason : Option Preference → List Reason
preference_reason none = []
preference_reason (some p) = payment_method_preference_is p ∷ []

-- The candidates for these gateways, from a first priority on.
unfoldable pub rank_from : ℕ → Option Preference → List GatewayReadiness → List Candidate
rank_from n preference [] = []
rank_from n preference (r ∷ rs) =
    record {
      gateway = r.gateway;
      priority = n;
      reason =
          auto_eligible_gateway
          ∷ priority_is n
          ∷ (mode_reason r.mode ++ preference_reason preference);
    }
    ∷ rank_from (n + 1) preference rs

unfoldable pub build_eligible_gateways :
    List GatewayReadiness → List GatewayProvider → Option Preference → List Candidate
unfolding ready_in_order rank_from
build_eligible_gateways readiness order preference =
    rank_from 1 preference (ready_in_order readiness order)

abbrev pub gateway_text : GatewayProvider → String
gateway_text payfast = "PAYFAST"
gateway_text ozow = "OZOW"
gateway_text yoco = "YOCO"
gateway_text paystack = "PAYSTACK"
gateway_text peach = "PEACH"

abbrev first_issue : List String → String
first_issue [] = "not ready"
first_issue (i ∷ is) = i

-- The details of `buildNoGatewayAvailableMessage`, joined by "; ".
abbrev details : List GatewayReadiness → String
details [] = ""
details (r ∷ []) = gateway_text r.gateway <> ": " <> first_issue r.issues
details (r ∷ s ∷ rs) =
    (gateway_text r.gateway <> ": " <> first_issue r.issues) <> "; " <> details (s ∷ rs)

unfoldable pub build_no_gateway_available_message : List GatewayReadiness → String
build_no_gateway_available_message readiness =
    if truthy (details readiness)
    then "No gateway available for this payment. " <> details readiness
    else "No gateway available for this payment"

abbrev unavailable : GatewayProvider → String
unavailable g = "Gateway " <> gateway_text g <> " is not available for this payment"

abbrev with_issue : GatewayProvider → List String → String
with_issue g [] = unavailable g
with_issue g (i ∷ is) = if truthy i then unavailable g <> ": " <> i else unavailable g

abbrev pub explicit_candidate : GatewayProvider → Candidate
explicit_candidate g = record { gateway = g; priority = 1; reason = explicit_gateway_request ∷ [] }

-- `list.filter((item, index, list) => list.findIndex(same gateway) === index)`, after the gateways
-- that stand before the list.
unfoldable pub first_of_each : List GatewayProvider → List GatewayReadiness → List GatewayReadiness
first_of_each seen [] = []
first_of_each seen (r ∷ rs) =
    let rest = first_of_each (r.gateway ∷ seen) rs in
    if contains seen r.gateway then rest else r ∷ rest

-- The outcome of an explicit request, from the readiness of the gateway that was asked for.
unfoldable pub decide_explicit :
    RoutingMode
    → GatewayProvider
    → List GatewayReadiness
    → Option GatewayReadiness
    → Result Decision
unfolding first_of_each
decide_explicit mode g readiness none = err (bad_request (unavailable g))
decide_explicit mode g readiness (some own) =
    if own.ready
    then ok (record {
      mode = mode;
      selection_mode = explicit;
      requested_gateway = only g;
      selected_gateway = g;
      routing_reason = explicit_gateway_request ∷ [];
      eligible_gateways = explicit_candidate g ∷ [];
      skipped_gateways = filter (λ r. not r.ready) readiness;
      readiness = first_of_each [] (readiness ++ own ∷ []);
    })
    else err (bad_request (with_issue g own.issues))

-- The outcome of an automatic selection, from the eligible gateways.
unfoldable pub decide_auto :
    RoutingMode → RequestedGateway → List GatewayReadiness → List Candidate → Result Decision
unfolding build_no_gateway_available_message
decide_auto mode requested readiness [] =
    err (bad_request (build_no_gateway_available_message readiness))
decide_auto mode requested readiness (best ∷ others) = ok (record {
  mode = mode;
  selection_mode = automatic;
  requested_gateway = requested;
  selected_gateway = best.gateway;
  routing_reason = best.reason;
  eligible_gateways = best ∷ others;
  skipped_gateways = filter (λ r. not r.ready) readiness;
  readiness = readiness;
})

-- `requestedGateway ?? 'AUTO'`
abbrev requested_or_auto : RequestedGateway → RequestedGateway
requested_or_auto unspecified = auto
requested_or_auto r = r

unfoldable pub decide :
    Env → RequestedGateway → RoutingMode → Option String → Request → Result Decision
decide env (only g) mode payment_method_preference request =
    if contains request.excluded g
    then err (bad_request (unavailable g))
    else decide_explicit mode g (get_gateway_readiness env request) (
        find? (λ r. r.gateway == g) (get_gateway_readiness env request)
        or_else legacy_gateway_readiness env request g)
decide env requested mode payment_method_preference request =
    let preference = normalize_payment_method_preference payment_method_preference in
    let readiness = get_gateway_readiness env request in
    decide_auto mode (requested_or_auto requested) readiness
      (build_eligible_gateways readiness (resolve_auto_rail_order preference) preference)

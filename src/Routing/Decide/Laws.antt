-- ===== src/Routing/Decide/Laws.antt =====
-- The decision of the engine, against the readiness of the gateways and the order of the rails.
use stackaura_checkout_api.Base.{
  ℕ, ◌+◌, String, Bool, false, Option, none, some, List, [], ◌∷◌, map, ◌≡◌, refl, ap, sym, ◌∙◌,
  ◌==◌, inl, inr, string_eq, contains, find?, find?-sound, filter, Bool-cases, All,
}
use stackaura_checkout_api.Base.Result.{Result, ok, err, bad_request}
use stackaura_checkout_api.Domain.{
  Env, GatewayProvider, payfast, ozow, yoco, paystack, peach, gateway_eq,
}
use stackaura_checkout_api.Routing.Readiness.{
  Request, GatewayReadiness, readiness_of, get_gateway_readiness,
}
use stackaura_checkout_api.Routing.Readiness.Laws.{readiness_of_gateway, excluded_not_ready}
use stackaura_checkout_api.Routing.Decide.{
  RequestedGateway, only, auto, unspecified, RoutingMode, Preference, bank_eft, card, Candidate,
  Decision, normalize_payment_method_preference, resolve_auto_rail_order, ready_in_order, rank_from,
  build_eligible_gateways, decide_explicit, decide_auto, decide, unavailable,
}

-- A gateway of the rails: not PayFast and not Peach.
abbrev pub IsRail : GatewayProvider → Type 0
IsRail payfast = ⊥
IsRail peach = ⊥
IsRail _ = Unit

module _ (env : Env) (request : Request) where
  abbrev pub is_ready : GatewayProvider → Bool
  is_ready g = (readiness_of env request g).ready

  find_readiness :
      (g : GatewayProvider)
      → IsRail g
      → find? (λ r. r.gateway == g) (get_gateway_readiness env request)
        ≡ some (readiness_of env request g)
  unfolding get_gateway_readiness
  find_readiness paystack h = simp (readiness_of_gateway env request)
  find_readiness yoco h = simp (readiness_of_gateway env request)
  find_readiness ozow h = simp (readiness_of_gateway env request)
  find_readiness payfast h = absurd h
  find_readiness peach h = absurd h

  ready_in_order_lem :
      (order : List GatewayProvider)
      → All IsRail order
      → ready_in_order (get_gateway_readiness env request) order
        ≡ map (readiness_of env request) (filter is_ready order)
  unfolding ready_in_order
  ready_in_order_lem [] h = refl
  ready_in_order_lem (g ∷ order) (h, hs) =
      let ih = ready_in_order_lem order hs in
      elim (Bool-cases (is_ready g)) [
        | inl t ↦
            rw (find_readiness g h, ready_in_order)
              (simp t (ap (λ rs. readiness_of env request g ∷ rs) ih))
        | inr f ↦ rw (find_readiness g h, ready_in_order) (simp f ih)
      ]

  gateways_ranked :
      (n : ℕ) (preference : Option Preference) (gs : List GatewayProvider)
      → map
          (λ (c : Candidate). c.gateway)
          (rank_from n preference (map (readiness_of env request) gs))
        ≡ gs
  unfolding rank_from
  gateways_ranked n preference [] = refl
  gateways_ranked n preference (g ∷ gs) =
      cc (readiness_of_gateway env request g, gateways_ranked (n + 1) preference gs)

  -- The gateways of the candidates are the ready ones of the order.
  eligible_gateways_lem :
      (order : List GatewayProvider) (preference : Option Preference)
      → All IsRail order
      → map
          (λ (c : Candidate). c.gateway)
          (build_eligible_gateways (get_gateway_readiness env request) order preference)
        ≡ filter is_ready order
  unfolding build_eligible_gateways
  eligible_gateways_lem order preference h =
      rw (ready_in_order_lem order h) (gateways_ranked 1 preference (filter is_ready order))

abbrev pub selected : Result Decision → Option GatewayProvider
selected (ok d) = some d.selected_gateway
selected (err e) = none

abbrev pub eligible : Result Decision → List GatewayProvider
eligible (ok d) = map (λ (c : Candidate). c.gateway) d.eligible_gateways
eligible (err e) = []

abbrev pub head_gateway : List GatewayProvider → Option GatewayProvider
head_gateway [] = none
head_gateway (g ∷ gs) = some g

decide_auto-eligible :
    (mode : RoutingMode) (r : RequestedGateway) (readiness : List GatewayReadiness)
    (cs : List Candidate)
    → eligible (decide_auto mode r readiness cs) ≡ map (λ (c : Candidate). c.gateway) cs
unfolding decide_auto
decide_auto-eligible mode r readiness [] = refl
decide_auto-eligible mode r readiness (c ∷ cs) = refl

decide_auto-selected :
    (mode : RoutingMode) (r : RequestedGateway) (readiness : List GatewayReadiness)
    (cs : List Candidate)
    → selected (decide_auto mode r readiness cs)
      ≡ head_gateway (map (λ (c : Candidate). c.gateway) cs)
unfolding decide_auto
decide_auto-selected mode r readiness [] = refl
decide_auto-selected mode r readiness (c ∷ cs) = refl

decide_explicit-selected :
    (mode : RoutingMode) (g : GatewayProvider) (readiness : List GatewayReadiness)
    (own : Option GatewayReadiness) (d : Decision)
    → decide_explicit mode g readiness own ≡ ok d
    → (d.selected_gateway ≡ g) × (map (λ (c : Candidate). c.gateway) d.eligible_gateways ≡ g ∷ [])
unfolding decide_explicit
decide_explicit-selected mode g readiness none d e = absurd (cc)
decide_explicit-selected mode g readiness (some own) d e = elim (Bool-cases own.ready) [
  | inl t ↦
      let e' : some g ≡ some d.selected_gateway = rw t at (ap selected e) in
      let k : g ∷ [] ≡ map (λ (c : Candidate). c.gateway) d.eligible_gateways =
        rw t at (ap eligible e) in
      (cc, sym k)
  | inr f ↦ let e' = rw f at e in absurd (cc)
]

order-IsRail : (preference : Option Preference) → All IsRail (resolve_auto_rail_order preference)
unfolding resolve_auto_rail_order
order-IsRail none = (tt, (tt, (tt, tt)))
order-IsRail (some bank_eft) = (tt, (tt, (tt, tt)))
order-IsRail (some card) = (tt, (tt, (tt, tt)))

head-filter :
    (p : GatewayProvider → Bool) (gs : List GatewayProvider)
    → head_gateway (filter p gs) ≡ find? p gs
head-filter p [] = refl
head-filter p (g ∷ gs) = elim (Bool-cases (p g)) [ inl t ↦ rw t | inr f ↦ rw f (head-filter p gs) ]

abbrev pub IsAutomatic : RequestedGateway → Type 0
IsAutomatic (only g) = ⊥
IsAutomatic auto = Unit
IsAutomatic unspecified = Unit

module _ (env : Env) (mode : RoutingMode) (method : Option String) (request : Request) where
  -- The order of the rails that the preferred payment method asks for.
  abbrev pub rail_order : List GatewayProvider
  rail_order = resolve_auto_rail_order (normalize_payment_method_preference method)

  decide_auto_lem :
      (requested : RequestedGateway)
      → let readiness = get_gateway_readiness env request in
        let preference = normalize_payment_method_preference method in
        let decision =
          decide_auto mode requested readiness
            (build_eligible_gateways readiness rail_order preference) in
        (selected decision ≡ find? (is_ready env request) rail_order)
        × (eligible decision ≡ filter (is_ready env request) rail_order)
  decide_auto_lem requested =
      let preference = normalize_payment_method_preference method in
      let e = eligible_gateways_lem env request rail_order preference (order-IsRail preference) in
      (
        decide_auto-selected mode requested _ _
            ∙ ap head_gateway e
            ∙ head-filter (is_ready env request) rail_order,
        decide_auto-eligible mode requested _ _ ∙ e,
      )

  -- An automatic decision selects the first gateway that is ready in the engine's own order, which is
  -- Paystack, Yoco, Ozow, or Ozow, Yoco, Paystack if a bank EFT is preferred, whatever the merchant's
  -- `gateway_order` says; it offers exactly the ready gateways in that order, and where none is ready
  -- it fails.
  pub decide_automatic :
      (requested : RequestedGateway)
      → IsAutomatic requested
      → (selected (decide env requested mode method request)
          ≡ find? (is_ready env request) rail_order)
        × (eligible (decide env requested mode method request)
            ≡ filter (is_ready env request) rail_order)
  unfolding decide
  decide_automatic (only g) h = absurd h
  decide_automatic auto h = decide_auto_lem auto
  decide_automatic unspecified h = decide_auto_lem auto

  automatic-ne-excluded :
      (requested : RequestedGateway) (d : Decision)
      → IsAutomatic requested
      → decide env requested mode method request ≡ ok d
      → contains request.excluded d.selected_gateway ≡ false
  automatic-ne-excluded requested d h e =
      let found : find? (is_ready env request) rail_order ≡ some d.selected_gateway =
        sym (decide_automatic requested h).0 ∙ ap selected e in
      let ready = find?-sound (is_ready env request) rail_order found in
      elim (Bool-cases (contains request.excluded d.selected_gateway)) [
        | inl t ↦ cc (ready, excluded_not_ready env request d.selected_gateway t)
        | inr f ↦ f
      ]

  -- A gateway that the request excludes is never selected, neither on an explicit request nor
  -- automatically.
  pub decide-ne-excluded :
      (requested : RequestedGateway) (d : Decision)
      → decide env requested mode method request ≡ ok d
      → contains request.excluded d.selected_gateway ≡ false
  unfolding decide
  decide-ne-excluded (only g) d e = elim (Bool-cases (contains request.excluded g)) [
    | inl t ↦ let e' : err (bad_request (unavailable g)) ≡ ok d = rw t at e in cc
    | inr f ↦ let e' = decide_explicit-selected mode g _ _ d (rw f at e) in rw (e'.0) f
  ]
  decide-ne-excluded auto d e = automatic-ne-excluded auto d tt e
  decide-ne-excluded unspecified d e = automatic-ne-excluded unspecified d tt e

  -- An explicit request is answered with the gateway that was asked for, or not at all.
  pub decide_explicit_lem :
      (g : GatewayProvider) (d : Decision)
      → decide env (only g) mode method request ≡ ok d
      → (d.selected_gateway ≡ g) × (map (λ (c : Candidate). c.gateway) d.eligible_gateways ≡ g ∷ [])
  unfolding decide
  decide_explicit_lem g d e = elim (Bool-cases (contains request.excluded g)) [
    | inl t ↦ let e' : err (bad_request (unavailable g)) ≡ ok d = rw t at e in absurd (cc)
    | inr f ↦ decide_explicit-selected mode g _ _ d (rw f at e)
  ]

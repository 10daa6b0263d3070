-- ===== src/Payments/Initialize/Choice.antt =====
-- Which gateway the loop ends with, against the candidates and their sessions, and together with the
-- decision of the routing engine.
use stackaura_checkout_api.Base.{
  ℕ, String, Bool, true, false, Option, none, some, List, [], ◌∷◌, map, ◌≡◌, refl, sym, ap, ◌∙◌,
  ◌&&◌, if◌then◌else◌, find?, filter, Bool-cases, inl, inr, ◌⊎◌,
}
use stackaura_checkout_api.Base.Result.{Error, Result, ok, err}
use stackaura_checkout_api.Domain.{Env, GatewayProvider}
use stackaura_checkout_api.Store.{Payment, Attempt, Db}
use stackaura_checkout_api.Routing.Readiness.{Request, GatewayReadiness}
use stackaura_checkout_api.Routing.Decide.{
  RequestedGateway, only, auto, unspecified, decide_auto, RoutingMode, Candidate, Decision,
  SelectionMode, automatic, explicit, decide,
}
use stackaura_checkout_api.Routing.Decide.Laws.{
  IsAutomatic, decide_automatic, eligible, is_ready, rail_order,
}
use stackaura_checkout_api.Payments.Failover.{Session}
use stackaura_checkout_api.Payments.Initialize.{
  FailureRecord, RoutingSnapshot, Progress, Initialization, is_automatic, initialize_from,
  initialize_payment_gateway_with_fallback, after_failure, record_failure,
}

-- The gateway opens a session.
abbrev pub opens : (GatewayProvider → Result Session) → GatewayProvider → Bool
opens redirect g = elim (redirect g) [ ok session ↦ true | err e ↦ false ]

-- The candidates that the loop may try: all of them on an automatic selection with fallback, and
-- the first one otherwise.
abbrev pub tried : SelectionMode → Bool → List GatewayProvider → List GatewayProvider
tried mode fallback [] = []
tried mode fallback (g ∷ gs) = if is_automatic mode && fallback then g ∷ gs else g ∷ []

abbrev pub chosen : Result Initialization → Option GatewayProvider
chosen (ok i) = some i.gateway
chosen (err e) = none

abbrev pub gateways : List Candidate → List GatewayProvider
gateways cs = map (λ (c : Candidate). c.gateway) cs

pub Result-cases :
    {A : Type 0} (r : Result A) → ((a : A) × (r ≡ ok a)) ⊎ ((e : Error) × (r ≡ err e))
Result-cases (ok a) = inl (a, refl)
Result-cases (err e) = inr (e, refl)

opens_ok :
    (redirect : GatewayProvider → Result Session) (g : GatewayProvider) {session : Session}
    → redirect g ≡ ok session
    → opens redirect g ≡ true
opens_ok redirect g e = rw (e, opens)

opens_err :
    (redirect : GatewayProvider → Result Session) (g : GatewayProvider) {error : Error}
    → redirect g ≡ err error
    → opens redirect g ≡ false
opens_err redirect g e = rw (e, opens)

module _ (redirect : GatewayProvider → Result Session) (new_id : List Attempt → String)
    (render : RoutingSnapshot → String) (payment : Payment) where
  -- Where the loop may not go on, a failure ends it.
  single :
      (mode : SelectionMode) (fallback : Bool) (progress : Progress) (c : Candidate)
      (cs : List Candidate) (db : Db) (error : Error)
      → redirect c.gateway ≡ err error
      → (is_automatic mode && fallback) ≡ false
      → chosen (initialize_from redirect new_id render payment mode fallback progress (c ∷ cs) db).1
        ≡ find? (opens redirect) (tried mode fallback (gateways (c ∷ cs)))
  unfolding initialize_from
  single explicit fallback progress c cs db error e h =
      rw (e, chosen) (rw (opens_err redirect c.gateway e) refl)
  single automatic false progress c [] db error e h =
      rw (e, chosen) (rw (opens_err redirect c.gateway e) refl)
  single automatic false progress c (d ∷ cs) db error e h =
      rw (e, chosen) (rw (opens_err redirect c.gateway e) refl)
  single automatic true progress c cs db error e h = absurd (cc)

  initialize_from-chosen :
      (mode : SelectionMode) (fallback : Bool) (progress : Progress) (cs : List Candidate) (db : Db)
      → chosen (initialize_from redirect new_id render payment mode fallback progress cs db).1
        ≡ find? (opens redirect) (tried mode fallback (gateways cs))
  unfolding initialize_from
  initialize_from-chosen mode fallback progress [] db = refl
  initialize_from-chosen automatic true progress (c ∷ []) db =
      elim (Result-cases (redirect c.gateway)) [
        | inl (session, e) ↦ rw (e, chosen) (rw (opens_ok redirect c.gateway e) refl)
        | inr (error, e) ↦ rw (e, chosen) (rw (opens_err redirect c.gateway e) refl)
      ]
  initialize_from-chosen automatic true progress (c ∷ d ∷ cs) db =
      elim (Result-cases (redirect c.gateway)) [
        | inl (session, e) ↦ rw (e, chosen) (rw (opens_ok redirect c.gateway e) refl)
        | inr (error, e) ↦
            let progress' = after_failure c (d ∷ cs) error progress in
            let db' = record_failure redirect new_id render payment c progress' db in
            let rest = initialize_from-chosen automatic true progress' (d ∷ cs) db' in
            rw (e, chosen) (rw (opens_err redirect c.gateway e) rest)
      ]
  initialize_from-chosen automatic false progress (c ∷ cs) db =
      elim (Result-cases (redirect c.gateway)) [
        | inl (session, e) ↦ rw (e, chosen) (rw (opens_ok redirect c.gateway e) refl)
        | inr (error, e) ↦ single automatic false progress c cs db error e refl
      ]
  initialize_from-chosen explicit fallback progress (c ∷ cs) db =
      elim (Result-cases (redirect c.gateway)) [
        | inl (session, e) ↦ rw (e, chosen) (rw (opens_ok redirect c.gateway e) refl)
        | inr (error, e) ↦ single explicit fallback progress c cs db error e refl
      ]

  -- The loop ends at the first gateway that opens a session, among the eligible ones on an automatic
  -- selection with fallback, and of the first one alone otherwise; where there is none it fails.
  pub initialize-chosen :
      (count : ℕ) (failures : List FailureRecord) (fallback : Bool) (decision : Decision) (db : Db)
      → chosen
          (initialize_payment_gateway_with_fallback redirect new_id render payment count failures
            fallback decision db).1
        ≡ find?
            (opens redirect)
            (tried decision.selection_mode fallback (gateways decision.eligible_gateways))
  unfolding initialize_payment_gateway_with_fallback
  initialize-chosen count failures fallback decision db =
      initialize_from-chosen decision.selection_mode fallback _ decision.eligible_gateways db

find-filter :
    (p q : GatewayProvider → Bool) (gs : List GatewayProvider)
    → find? q (filter p gs) ≡ find? (λ g. p g && q g) gs
find-filter p q [] = refl
find-filter p q (g ∷ gs) = elim (Bool-cases (p g)) [
  | inl t ↦ elim (Bool-cases (q g)) [ inl u ↦ rw (t, u) | inr u ↦ rw (t, u) (find-filter p q gs) ]
  | inr f ↦ rw f (find-filter p q gs)
]

decide_auto-automatic :
    (mode : RoutingMode) (requested : RequestedGateway) (readiness : List GatewayReadiness)
    (cs : List Candidate) (d : Decision)
    → decide_auto mode requested readiness cs ≡ ok d
    → automatic ≡ d.selection_mode
unfolding decide_auto
decide_auto-automatic mode requested readiness [] d e = absurd (cc)
decide_auto-automatic mode requested readiness (c ∷ cs) d e = mode_of_ok e
  where
    mode_of_ok : {a b : Decision} → ok a ≡ ok b → a.selection_mode ≡ b.selection_mode
    mode_of_ok {a} {b} h = let same : a ≡ b = cc in ap (λ (x : Decision). x.selection_mode) same

decide-automatic :
    (env : Env) (routing : RoutingMode) (method : Option String) (request : Request)
    (requested : RequestedGateway) (d : Decision)
    → IsAutomatic requested
    → decide env requested routing method request ≡ ok d
    → automatic ≡ d.selection_mode
unfolding decide
decide-automatic env routing method request (only g) d h e = absurd h
decide-automatic env routing method request auto d h e = decide_auto-automatic routing _ _ _ d e
decide-automatic env routing method request unspecified d h e =
    decide_auto-automatic routing _ _ _ d e

tried_all : (gs : List GatewayProvider) → tried automatic true gs ≡ gs
tried_all [] = refl
tried_all (g ∷ gs) = refl

-- The composition with the routing engine. A payment whose gateway was not asked for, of a merchant
-- with fallback, is opened at the first gateway of the order that is both ready and opens a session:
-- so it is opened if there is one, and fails otherwise.
pub decide-initialize :
    (env : Env) (routing : RoutingMode) (method : Option String) (request : Request)
    (requested : RequestedGateway) (decision : Decision)
    (redirect : GatewayProvider → Result Session) (new_id : List Attempt → String)
    (render : RoutingSnapshot → String) (payment : Payment) (db : Db)
    → IsAutomatic requested
    → decide env requested routing method request ≡ ok decision
    → chosen
        (initialize_payment_gateway_with_fallback redirect new_id render payment 0 [] true decision
          db).1
      ≡ find?
          (λ g. is_ready env request g && opens redirect g)
          (rail_order env routing method request)
decide-initialize env routing method request requested decision redirect new_id render payment db a
      e =
    let order = rail_order env routing method request in
    let offered : gateways decision.eligible_gateways ≡ filter (is_ready env request) order =
      ap eligible (sym e) ∙ (decide_automatic env routing method request requested a).1 in
    initialize-chosen redirect new_id render payment 0 [] true decision db
    ∙ ap
        (λ (m : SelectionMode).
          find? (opens redirect) (tried m true (gateways decision.eligible_gateways)))
        (sym (decide-automatic env routing method request requested decision a e))
    ∙ ap (find? (opens redirect)) (tried_all (gateways decision.eligible_gateways) ∙ offered)
    ∙ find-filter (is_ready env request) (opens redirect) order

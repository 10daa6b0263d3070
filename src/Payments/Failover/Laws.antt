-- ===== src/Payments/Failover/Laws.antt =====
-- The guards of a failover, and the failover as a whole.
use stackaura_checkout_api.Base.{
  String, Bool, true, false, Option, none, some, List, ◌==◌, ◌≡◌, ◌≢◌, refl, sym, ap, ◌∙◌,
  string_eq, contains, if◌then◌else◌, Option-cases, inl, inr,
}
use stackaura_checkout_api.Base.Result.{Error, Result, ok, err, ◌>>=◌, >>=-eq-ok}
use stackaura_checkout_api.Base.Text.{trim, truthy}
use stackaura_checkout_api.Domain.{Env, paid, GatewayProvider, payment_status_eq, gateway_eq}
use stackaura_checkout_api.Store.{Payment, Attempt, Db}
use stackaura_checkout_api.Routing.Readiness.{MerchantGatewayConfig}
use stackaura_checkout_api.Routing.Decide.{auto, RoutingMode, Decision}
use stackaura_checkout_api.Routing.Decide.Laws.{decide-ne-excluded}
use stackaura_checkout_api.Payments.Failover.{
  MerchantRow, StoredState, Session, Failover, failover_merchant, fallback_enabled, attempted,
  resolve_next_failover_decision, stop, choose_gateway, is_locked, check_failover,
  find_for_failover, plan_failover, new_attempt, carry_out, create_failover_attempt,
}
use stackaura_checkout_api.Payments.Failover.Attempts.{IsMoved, commit-IsMoved}

choose_gateway_new :
    (env : Env) (redirect : GatewayProvider → Result Session) (merchant : MerchantGatewayConfig)
    (stored : StoredState) (payment : Payment) (attempts : List Attempt) (f : Failover)
    → choose_gateway env redirect merchant stored payment attempts ≡ ok (some f)
    → (f.payment ≡ payment) × (contains (attempted payment attempts) f.gateway ≡ false)
unfolding choose_gateway resolve_next_failover_decision
choose_gateway_new env redirect merchant stored payment attempts f h =
    let (d, decided, after) =
      >>=-eq-ok (resolve_next_failover_decision env merchant stored payment attempts)
        (λ (decision : Decision). redirect decision.selected_gateway >>= λ session. ok (
          some
            (record { payment = payment; gateway = decision.selected_gateway; session = session })))
        h in
    let (session, _, made) =
      >>=-eq-ok (redirect d.selected_gateway)
        (λ (session : Session).
          ok (some (record { payment = payment; gateway = d.selected_gateway; session = session })))
        after in
    let same : record { payment = payment; gateway = d.selected_gateway; session = session } ≡ f =
      cc in
    rw (← same) (
      refl,
      decide-ne-excluded env RoutingMode.failover_priority stored.payment_method_preference _ auto d
          decided,
    )

stop_inv : (silently : Bool) (e : Error) (f : Failover) → stop silently e ≢ ok (some f)
stop_inv true e f h = absurd (cc)
stop_inv false e f h = absurd (cc)

-- The guards that a failover has passed.
unless_inv :
    (b silently : Bool) (e : Error) (rest : Result (Option Failover)) (f : Failover)
    → (if b then stop silently e else rest) ≡ ok (some f)
    → (b ≡ false) × (rest ≡ ok (some f))
unless_inv true silently e rest f h = absurd (stop_inv silently e f h)
unless_inv false silently e rest f h = (refl, h)

when_inv :
    (b silently : Bool) (e : Error) (rest : Result (Option Failover)) (f : Failover)
    → (if b then rest else stop silently e) ≡ ok (some f)
    → rest ≡ ok (some f)
when_inv true silently e rest f h = h
when_inv false silently e rest f h = absurd (stop_inv silently e f h)

-- What a failover that is to be made says of the payment that was found and of its gateway.
abbrev IsFresh : List Attempt → Payment → Failover → Type 0
IsFresh attempts payment f =
    (f.payment ≡ payment)
    × ((payment.status == paid) ≡ false)
    × (contains (attempted payment attempts) f.gateway ≡ false)

check_failover-IsFresh :
    (env : Env) (redirect : GatewayProvider → Result Session) (silently : Bool) (row : MerchantRow)
    (stored : StoredState) (attempts : List Attempt) (payment : Payment) (f : Failover)
    → check_failover env redirect silently row stored attempts (some payment) ≡ ok (some f)
    → IsFresh attempts payment f
unfolding check_failover
check_failover-IsFresh env redirect silently row stored attempts payment f h =
    let (unpaid, h1) = unless_inv (payment.status == paid) silently _ _ f h in
    let (_, h2) = unless_inv (is_locked stored.locked_to) silently _ _ f h1 in
    let (_, h3) = unless_inv stored.checkout_started silently _ _ f h2 in
    let (merchant, _, h4) = >>=-eq-ok (failover_merchant env row.config) _ h3 in
    let chosen = when_inv (fallback_enabled env row) silently _ _ f h4 in
    let (same, fresh) = choose_gateway_new env redirect merchant stored payment attempts f chosen in
    (same, unpaid, fresh)

check_none :
    (env : Env) (redirect : GatewayProvider → Result Session) (silently : Bool) (row : MerchantRow)
    (stored : StoredState) (attempts : List Attempt) (f : Failover)
    → check_failover env redirect silently row stored attempts none ≢ ok (some f)
unfolding check_failover
check_none env redirect silently row stored attempts f h = stop_inv silently _ f h

plan_failover-IsFresh :
    (env : Env) (redirect : GatewayProvider → Result Session) (silently : Bool) (row : MerchantRow)
    (stored : StoredState) (reference : String) (merchant_id : Option String) (db : Db)
    (f : Failover)
    → plan_failover env redirect silently row stored reference merchant_id db ≡ ok (some f)
    → (payment : Payment) × (find_for_failover reference merchant_id db ≡ some payment)
      × IsFresh db.attempts payment f
unfolding plan_failover
plan_failover-IsFresh env redirect silently row stored reference merchant_id db f h =
    let checked = when_inv (truthy (trim reference)) silently _ _ f h in
    elim (Option-cases (find_for_failover reference merchant_id db)) [
      | inl e ↦ absurd (check_none env redirect silently row stored db.attempts f (rw e at checked))
      | inr (payment, e) ↦ (
        payment,
        e,
        check_failover-IsFresh env redirect silently row stored db.attempts payment f
            (rw e at checked),
      )
    ]

carried_out :
    (id raw reference : String) (merchant_id : Option String) (db : Db)
    (planned : Result (Option Failover)) (a : Attempt)
    → ((f : Failover)
        → planned ≡ ok (some f)
        → (payment : Payment) × (find_for_failover reference merchant_id db ≡ some payment)
          × IsFresh db.attempts payment f)
    → (carry_out id raw db planned).1 ≡ ok (some a)
    → (payment : Payment) × (find_for_failover reference merchant_id db ≡ some payment)
      × ((payment.status == paid) ≡ false)
      × IsMoved db payment a (carry_out id raw db planned).0
carried_out id raw reference merchant_id db (err e) a sound h = absurd (cc)
carried_out id raw reference merchant_id db (ok none) a sound h = absurd (cc)
carried_out id raw reference merchant_id db (ok (some f)) a sound h =
    let (payment, found, facts) = sound f refl in
    let (same, unpaid, fresh) = facts in
    let made : new_attempt id f ≡ a = cc in
    let found' : find_for_failover reference merchant_id db ≡ some f.payment =
      found ∙ ap (λ (p : Payment). some p) (sym same) in
    let unpaid' : (f.payment.status == paid) ≡ false =
      ap (λ (p : Payment). p.status == paid) same ∙ unpaid in
    let fresh' : contains (attempted f.payment db.attempts) f.gateway ≡ false =
      ap (λ (p : Payment). contains (attempted p db.attempts) f.gateway) same ∙ fresh in
    let moved = commit-IsMoved id raw reference merchant_id f db found' fresh' in
    rw (← made) (f.payment, found', unpaid', moved)

-- A failover that makes an attempt does so for the payment that the reference finds, which is not
-- PAID: the attempt is at a gateway that is neither the payment's nor that of one of its attempts,
-- it is the only open attempt that the payment then has, and the payment is PENDING at the
-- attempt's gateway, whatever its status was.
pub create_failover_attempt_lem :
    (env : Env) (redirect : GatewayProvider → Result Session) (id raw : String) (silently : Bool)
    (row : MerchantRow) (stored : StoredState) (reference : String) (merchant_id : Option String)
    (db : Db) (a : Attempt)
    → let after =
        create_failover_attempt env redirect id raw silently row stored reference merchant_id db in
      after.1 ≡ ok (some a)
      → (payment : Payment) × (find_for_failover reference merchant_id db ≡ some payment)
        × ((payment.status == paid) ≡ false)
        × IsMoved db payment a after.0
unfolding create_failover_attempt
create_failover_attempt_lem env redirect id raw silently row stored reference merchant_id db a h =
    carried_out id raw reference merchant_id db
      (plan_failover env redirect silently row stored reference merchant_id db) a
      (plan_failover-IsFresh env redirect silently row stored reference merchant_id db) h

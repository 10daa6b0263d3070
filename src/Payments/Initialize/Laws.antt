-- ===== src/Payments/Initialize/Laws.antt =====
-- What the loop leaves in the payment's row and its attempts, when it opens a session and when it
-- fails.
use text.Mathlib.TextPositions.{eq_refl}
use mathlib.Core.Path.{subst}
use stackaura_checkout_api.Base.{
  ℕ, String, Bool, true, false, not, Option, none, some, List, [], ◌∷◌, ◌≡◌, refl, sym, ap, ◌∙◌,
  ◌==◌, ◌||◌, ◌+◌, string_eq, if◌then◌else◌, find?, length, length-append, Bool-cases, inl, inr,
  arith,
}
use stackaura_checkout_api.Base.Result.{Error, Result, ok, err}
use stackaura_checkout_api.Domain.{GatewayProvider}
use stackaura_checkout_api.Store.{Payment, Attempt, Db}
use stackaura_checkout_api.Store.Keys.{update_row}
use stackaura_checkout_api.Routing.Decide.{Candidate, Decision, SelectionMode, automatic, explicit}
use stackaura_checkout_api.Payments.Failover.{Session, is_open}
use stackaura_checkout_api.Payments.Failover.Attempts.{open_attempts}
use stackaura_checkout_api.Payments.Initialize.Choice.{Result-cases}
use stackaura_checkout_api.Payments.Initialize.{
  failure_of, FailureRecord, RoutingSnapshot, Progress, Initialization, candidate_gateway,
  is_automatic, is_some, initialize_from, initialize_payment_gateway_with_fallback, after_failure,
  record_failure, commit_session, cancel_open_attempts, initialized_status,
}

-- The row of a payment.
abbrev pub row_of : String → List Payment → Option Payment
row_of id payments = find? (λ (p : Payment). p.id == id) payments

-- The row after an update by its key.
row_of-update :
    (id : String) (f : Payment → Payment) (xs : List Payment) {x : Payment}
    → ((y : Payment) → (f y).id ≡ y.id)
    → row_of id xs ≡ some x
    → row_of id (update_row (λ (p : Payment). p.id) id f xs) ≡ some (f x)
row_of-update id f [] same e = absurd (cc)
row_of-update id f (y ∷ ys) {x} same e = elim (Bool-cases (y.id == id)) [
  | inl t ↦
      let u : ((f y).id == id) ≡ true = ap (λ (s : String). s == id) (same y) ∙ t in
      let e' : some y ≡ some x = rw t at e in
      let whole : y ≡ x = cc in simp (t, u) (ap (λ (p : Payment). some (f p)) whole)
  | inr n ↦ simp n (row_of-update id f ys same (rw n at e))
]

cancel_open_attempts-open_attempts :
    (id : String) (attempts : List Attempt)
    → open_attempts id (cancel_open_attempts id attempts) ≡ 0
unfolding cancel_open_attempts
cancel_open_attempts-open_attempts id [] = refl
cancel_open_attempts-open_attempts id (a ∷ as') =
    let rest = cancel_open_attempts-open_attempts id as' in
    elim (Bool-cases (a.payment_id == id)) [
      | inl t ↦ elim (Bool-cases (is_open a.status)) [
        | inl o ↦ simp (t, o) (omega (arith, rest))
        | inr o ↦ simp (t, o) (omega (arith, rest))
      ]
      | inr f ↦ simp f (omega (arith, rest))
    ]

-- What the loop leaves of a payment with the row `x` and a number of open attempts. Where a session
-- is opened, the payment has one open attempt and its row names the session's gateway, and each
-- failure on the way is counted as one fallback. Where none is, the open attempts and the row stay,
-- but for the row's JSON column.
abbrev pub HasOutcome : Payment → Payment → ℕ → Progress → Result Initialization → Db → Type 0
HasOutcome payment x open_count progress (ok i) after =
    (open_attempts payment.id after.attempts ≡ 1)
    × ((raw : Option String) × (row_of payment.id after.payments
          ≡ some (record x {
            gateway = some i.gateway;
            gateway_ref = i.session.external_reference;
            status = initialized_status payment.status;
            raw_gateway = raw;
          })))
    × (i.fallback_count + length progress.initialization_failures
        ≡ progress.fallback_count + length i.initialization_failures)
HasOutcome payment x open_count progress (err e) after =
    (open_attempts payment.id after.attempts ≡ open_count)
    × ((raw : Option String) × (row_of payment.id after.payments
          ≡ some (record x { raw_gateway = raw })))

-- A failure ends the loop.
abbrev stops : SelectionMode → Bool → List Candidate → Bool
stops mode fallback rest =
    not (is_automatic mode) || not (is_some (candidate_gateway rest)) || not fallback

stops_last : (mode : SelectionMode) (fallback : Bool) → stops mode fallback [] ≡ true
stops_last automatic fallback = refl
stops_last explicit fallback = refl

-- The outcome of the loop goes over from the variables after a failure to those before it, where the
-- loop goes on.
HasOutcome-after_failure :
    (payment x : Payment) (raw : Option String) (mode : SelectionMode) (fallback : Bool)
    (c : Candidate) (cs : List Candidate) (e : Error) (progress : Progress)
    (r : Result Initialization) (db : Db) {n m : ℕ}
    → stops mode fallback cs ≡ false
    → m ≡ n
    → HasOutcome payment (record x { raw_gateway = raw }) m (after_failure c cs e progress) r db
    → HasOutcome payment x n progress r db
HasOutcome-after_failure payment x raw mode fallback c [] e progress r db f same h =
    let bad : true ≡ false = sym (stops_last mode fallback) ∙ f in absurd (cc)
HasOutcome-after_failure payment x raw mode fallback c (d ∷ cs) e progress (ok i) db f same
      (one, row, count) =
    let longer = length-append progress.initialization_failures (failure_of c (d ∷ cs) e ∷ []) in
    (one, row, omega (arith, count, longer))
HasOutcome-after_failure payment x raw mode fallback c (d ∷ cs) e progress (err e') db f same
      (left, row) =
    (left ∙ same, row)

module _ (redirect : GatewayProvider → Result Session) (new_id : List Attempt → String)
    (render : RoutingSnapshot → String) (payment : Payment) where
  commit_session-HasOutcome :
      (c : Candidate) (session : Session) (progress : Progress) (open_count : ℕ) (db : Db)
      {x : Payment}
      → row_of payment.id db.payments ≡ some x
      → HasOutcome payment x open_count progress
          (ok (record {
            gateway = c.gateway;
            session = session;
            fallback_count = progress.fallback_count;
            initialization_failures = progress.initialization_failures;
          }))
          (commit_session redirect new_id render payment c session progress db)
  unfolding commit_session
  commit_session-HasOutcome c session progress open_count db present =
      let none_left = cancel_open_attempts-open_attempts payment.id db.attempts in
      (
        simp eq_refl (omega (arith, none_left)),
        (_, row_of-update payment.id _ db.payments (λ p. refl) present),
        refl,
      )

  record_failure-open_attempts :
      (c : Candidate) (progress : Progress) (db : Db)
      → open_attempts payment.id
          (record_failure redirect new_id render payment c progress db).attempts
        ≡ open_attempts payment.id db.attempts
  unfolding record_failure
  record_failure-open_attempts c progress db = simp eq_refl (omega arith)

  record_failure-row_of :
      (c : Candidate) (progress : Progress) (db : Db) {x : Payment}
      → row_of payment.id db.payments ≡ some x
      → (raw : Option String) × (row_of payment.id
            (record_failure redirect new_id render payment c progress db).payments
          ≡ some (record x { raw_gateway = raw }))
  unfolding record_failure
  record_failure-row_of c progress db present =
      (_, row_of-update payment.id _ db.payments (λ p. refl) present)

  initialize_from_ok :
      (mode : SelectionMode) (fallback : Bool) (progress : Progress) (c : Candidate)
      (cs : List Candidate) (db : Db) {session : Session}
      → redirect c.gateway ≡ ok session
      → initialize_from redirect new_id render payment mode fallback progress (c ∷ cs) db ≡ (
        commit_session redirect new_id render payment c session progress db,
        ok (record {
          gateway = c.gateway;
          session = session;
          fallback_count = progress.fallback_count;
          initialization_failures = progress.initialization_failures;
        }),
      )
  unfolding initialize_from
  initialize_from_ok mode fallback progress c cs db e = rw (e, initialize_from) refl

  initialize_from_err :
      (mode : SelectionMode) (fallback : Bool) (progress : Progress) (c : Candidate)
      (cs : List Candidate) (db : Db) {error : Error}
      → redirect c.gateway ≡ err error
      → let progress' = after_failure c cs error progress in
        let db' = record_failure redirect new_id render payment c progress' db in
        initialize_from redirect new_id render payment mode fallback progress (c ∷ cs) db ≡ (
          if stops mode fallback cs
          then (db', err error)
          else initialize_from redirect new_id render payment mode fallback progress' cs db')
  unfolding initialize_from
  initialize_from_err mode fallback progress c cs db e = rw (e, initialize_from) refl

  initialize_from-HasOutcome :
      (mode : SelectionMode) (fallback : Bool) (progress : Progress) (cs : List Candidate) (db : Db)
      (x : Payment)
      → row_of payment.id db.payments ≡ some x
      → let out = initialize_from redirect new_id render payment mode fallback progress cs db in
        HasOutcome payment x (open_attempts payment.id db.attempts) progress out.1 out.0
  unfolding initialize_from
  initialize_from-HasOutcome mode fallback progress [] db x present =
      (refl, (x.raw_gateway, present))
  initialize_from-HasOutcome mode fallback progress (c ∷ cs) db x present =
      let n = open_attempts payment.id db.attempts in
      let at_end : Db × Result Initialization → Type 0 =
        λ o. HasOutcome payment x n progress o.1 o.0 in
      elim (Result-cases (redirect c.gateway)) [
        | inl (session, e) ↦
            subst at_end (sym (initialize_from_ok mode fallback progress c cs db e))
              (commit_session-HasOutcome c session progress n db present)
        | inr (error, e) ↦
            let progress' = after_failure c cs error progress in
            let db' = record_failure redirect new_id render payment c progress' db in
            let opens = record_failure-open_attempts c progress' db in
            let (raw, row) = record_failure-row_of c progress' db present in
            let rest =
              initialize_from-HasOutcome mode fallback progress' cs db'
                (record x { raw_gateway = raw }) row in
            subst at_end (sym (initialize_from_err mode fallback progress c cs db e))
              (elim (Bool-cases (stops mode fallback cs)) [
                | inl t ↦ rw t (opens, (raw, row))
                | inr f ↦ rw f (
                    HasOutcome-after_failure payment x raw mode fallback c cs error progress _ _ f
                      opens rest)
              ])
      ]

  -- Where the payment's row is stored and the loop opens a session, the payment has exactly one open
  -- attempt, the row names the session's gateway and reference, the row's status is CREATED if the
  -- caller had read CREATED and PENDING otherwise, and the fallback count grows by the number of the
  -- failures that are added. Where the loop fails, the number of open attempts and the row are as
  -- before, but for the row's JSON column.
  pub initialize-HasOutcome :
      (count : ℕ) (failures : List FailureRecord) (fallback : Bool) (decision : Decision) (db : Db)
      (x : Payment)
      → row_of payment.id db.payments ≡ some x
      → let out =
          initialize_payment_gateway_with_fallback redirect new_id render payment count failures
            fallback decision db in
        HasOutcome payment x
          (open_attempts payment.id db.attempts)
          (record { fallback_count = count; initialization_failures = failures; last_error = none })
          out.1
          out.0
  unfolding initialize_payment_gateway_with_fallback
  initialize-HasOutcome count failures fallback decision db x present =
      initialize_from-HasOutcome decision.selection_mode fallback _ decision.eligible_gateways db x
        present

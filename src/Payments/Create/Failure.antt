-- ===== src/Payments/Create/Failure.antt =====
-- When a creation succeeds, and what a creation whose initialization fails leaves behind.
use text.Mathlib.TextPositions.{eq_refl}
use mathlib.Core.Path.{subst}
use stackaura_checkout_api.Base.{
  ℕ, String, true, Option, none, some, List, [], ◌≡◌, refl, ap, ◌∙◌, ◌==◌, string_eq, find?, any,
}
use stackaura_checkout_api.Base.Text.{trim, truthy, non_blank}
use stackaura_checkout_api.Base.Result.{Error, conflict, Result, ok, err}
use stackaura_checkout_api.Domain.{GatewayProvider}
use stackaura_checkout_api.Store.{Payment}
use stackaura_checkout_api.Payments.Initialize.{Initialization}
use stackaura_checkout_api.Payments.Initialize.Laws.{row_of, HasOutcome, initialize-HasOutcome}
use stackaura_checkout_api.Payments.Initialize.Choice.{
  opens, chosen, tried, gateways, initialize-chosen,
}
use stackaura_checkout_api.Payments.Failover.Attempts.{open_attempts}
use stackaura_checkout_api.Payments.Create.{
  Surroundings, State, created, Prepared, free, look_up_key, prepare, initialize, create_payment,
  with_row, conclude,
}
use stackaura_checkout_api.Payments.CreateRequest.{CreatePaymentDto, normalize_idempotency_key}
use stackaura_checkout_api.Payments.Create.Accepted.{IsPrepared, prepare-IsPrepared}
use stackaura_checkout_api.Payments.Create.Rows.{row_of-any}

module _ (around : Surroundings) where
  -- The gateway that the loop will end with, by which gateways open a session for the payment.
  abbrev pub first_opening : CreatePaymentDto → Prepared → Option GatewayProvider
  first_opening dto ready = find? (opens (around.redirect dto ready.merchant ready.payment)) (
      tried ready.decision.selection_mode ready.plan.fallback
        (gateways ready.decision.eligible_gateways))

  -- The request is signed in, its key is free, and it may be carried out.
  abbrev pub IsAccepted : String → CreatePaymentDto → Option String → State → Prepared → Type 0
  IsAccepted m dto key st ready =
      (truthy (trim m) ≡ true)
      × (look_up_key (trim m) (normalize_idempotency_key key) (around.request_hash dto) st.keys
          ≡ free)
      × (prepare around (trim m) dto st.db.payments ≡ ok ready)

  -- What an accepted call does is what its initialization ends with.
  accepted_create :
      (m : String) (dto : CreatePaymentDto) (key : Option String) (st : State) (ready : Prepared)
      → IsAccepted m dto key st ready
      → create_payment around m dto key st
        ≡ conclude around
            (trim m)
            (normalize_idempotency_key key)
            dto
            ready
            st
            (initialize around dto ready st.db)
  unfolding create_payment
  accepted_create m dto key st ready (signed_in, unused, prepared) =
      rw (signed_in, unused, prepared) refl

  chosen_ok :
      (r : Result Initialization) {g : GatewayProvider}
      → chosen r ≡ some g
      → (i : Initialization) × (r ≡ ok i) × (i.gateway ≡ g)
  chosen_ok (ok i) h = (i, refl, cc)
  chosen_ok (err e) h = absurd (cc)

  chosen_err : (r : Result Initialization) → chosen r ≡ none → (e : Error) × (r ≡ err e)
  chosen_err (ok i) h = absurd (cc)
  chosen_err (err e) h = (e, refl)

  -- An accepted request creates its payment at the first gateway, of those that may be tried, that
  -- opens a session, if there is one.
  pub create_succeeds :
      (m : String) (dto : CreatePaymentDto) (key : Option String) (st : State) (ready : Prepared)
      (g : GatewayProvider)
      → IsAccepted m dto key st ready
      → first_opening dto ready ≡ some g
      → (st' : State) × ((i : Initialization) × (create_payment around m dto key st
            ≡ (st', ok (created ready.payment i)))
          × (i.gateway ≡ g))
  create_succeeds m dto key st ready g accepted opening =
      let ends =
        initialize-chosen (around.redirect dto ready.merchant ready.payment) around.new_attempt_id
          around.render ready.payment 0 [] ready.plan.fallback ready.decision
          (with_row around ready st.db) in
      let (i, done, same) = chosen_ok (initialize around dto ready st.db).1 (ends ∙ opening) in
      (
        _,
        (
          i,
          accepted_create m dto key st ready accepted
              ∙ ap
                  (λ (r : Result Initialization).
                    conclude around (trim m) (normalize_idempotency_key key) dto ready st
                      ((initialize around dto ready st.db).0, r))
                  done,
          same,
        ),
      )

  -- The same surroundings at a later time, with other random texts.
  abbrev pub later : String → String → ℕ → Surroundings
  later reference token now = record around {
    random_reference = reference;
    random_token = token;
    now = now;
  }

  -- What a failed creation leaves: no key, but the payment's row as it was created, up to its JSON
  -- column, without an open attempt more than before.
  abbrev pub LeavesRow : State → Prepared → State → Type 0
  LeavesRow st ready st' =
      (st'.keys ≡ st.keys)
      × (open_attempts ready.payment.id st'.db.attempts
          ≡ open_attempts ready.payment.id st.db.attempts)
      × ((raw : Option String) × (row_of ready.payment.id st'.db.payments
            ≡ some (record ready.payment { raw_gateway = raw })))

  pub create_fails :
      (m : String) (dto : CreatePaymentDto) (key : Option String) (st : State) (ready : Prepared)
      → IsAccepted m dto key st ready
      → first_opening dto ready ≡ none
      → (st' : State) × ((e : Error) × (create_payment around m dto key st ≡ (st', err e))
          × LeavesRow st ready st')
  create_fails m dto key st ready accepted closed =
      let ends =
        initialize-chosen (around.redirect dto ready.merchant ready.payment) around.new_attempt_id
          around.render ready.payment 0 [] ready.plan.fallback ready.decision
          (with_row around ready st.db) in
      let (e, failed) = chosen_err (initialize around dto ready st.db).1 (ends ∙ closed) in
      let outcome =
        initialize-HasOutcome (around.redirect dto ready.merchant ready.payment)
          around.new_attempt_id around.render ready.payment 0 [] ready.plan.fallback ready.decision
          (with_row around ready st.db) ready.payment (simp eq_refl) in
      let (attempts, row) =
        subst
          (λ (r : Result Initialization).
            HasOutcome ready.payment ready.payment (open_attempts ready.payment.id st.db.attempts)
              (record { fallback_count = 0; initialization_failures = []; last_error = none }) r
              (initialize around dto ready st.db).0)
          failed outcome in
      (
        _,
        (
          e,
          accepted_create m dto key st ready accepted
              ∙ ap
                  (λ (r : Result Initialization).
                    conclude around (trim m) (normalize_idempotency_key key) dto ready st
                      ((initialize around dto ready st.db).0, r))
                  failed,
          (refl, attempts, row),
        ),
      )

  -- A request is refused where its reference is taken, whatever else it says.
  prepare-conflict :
      (m : String) (dto : CreatePaymentDto) (s reference token : String) (now : ℕ)
      (payments payments' : List Payment) (ready : Prepared)
      → IsPrepared around m dto payments ready
      → dto.reference ≡ some s
      → non_blank s ≡ some ready.payment.reference
      → any (λ (p : Payment). p.reference == ready.payment.reference) payments' ≡ true
      → prepare (later reference token now) m dto payments'
        ≡ err (conflict "Payment reference already exists")
  unfolding prepare
  prepare-conflict m dto s reference token now payments payments' ready c given text taken =
      rw
        (
          c.amount, c.merchant, c.configured, c.timed, c.gateway, c.allowed, c.decided, given, text,
          taken,
        )
        refl

  -- A request that names its payment's reference, and whose payment no gateway opens: it fails, its
  -- idempotency key is not stored, but its payment's row stays. So the same request under the same
  -- key is refused at every later time, because its reference is taken.
  pub create_retry_conflict :
      (m : String) (dto : CreatePaymentDto) (key : Option String) (s : String) (st : State)
      (ready : Prepared)
      → IsAccepted m dto key st ready
      → first_opening dto ready ≡ none
      → dto.reference ≡ some s
      → non_blank s ≡ some ready.payment.reference
      → (st' : State) × ((e : Error) × (create_payment around m dto key st ≡ (st', err e))
          × LeavesRow st ready st'
          × ((reference token : String) (now : ℕ)
              → create_payment (later reference token now) m dto key st'
                ≡ (st', err (conflict "Payment reference already exists"))))
  unfolding create_payment
  create_retry_conflict m dto key s st ready accepted closed given text =
      let (st', (e, fails, left)) = create_fails m dto key st ready accepted closed in
      let (signed_in, unused, prepared) = accepted in
      let (keys, _, (raw, row)) = left in
      let taken = row_of-any ready.payment.id st'.db.payments row in
      let c = prepare-IsPrepared around (trim m) dto st.db.payments ready prepared in
      let still : look_up_key (trim m) (normalize_idempotency_key key) (around.request_hash dto)
            st'.keys
          ≡ free =
        ap (look_up_key (trim m) (normalize_idempotency_key key) (around.request_hash dto)) keys
        ∙ unused in
      (
        st',
        (
          e,
          fails,
          left,
          (λ reference token now.
              rw
                (
                  signed_in,
                  still,
                  prepare-conflict (trim m) dto s reference token now st.db.payments st'.db.payments
                      ready c given text taken,
                )
                refl),
        ),
      )

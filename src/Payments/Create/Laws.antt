-- ===== src/Payments/Create/Laws.antt =====
-- What a request that is carried out has passed, and what the key's row then answers.
use text.Mathlib.TextPositions.{eq_refl}
use mathlib.Core.Path.{subst}
use stackaura_checkout_api.Base.{
  String, true, Option, none, some, [], ◌≡◌, refl, sym, ap, ◌∙◌, string_eq, Bool-cases, inl, inr,
}
use stackaura_checkout_api.Base.Text.{trim, truthy}
use stackaura_checkout_api.Base.Result.{conflict, unauthorized, Result, ok, err, of_ok}
use stackaura_checkout_api.Payments.Failover.Attempts.{open_attempts}
use stackaura_checkout_api.Domain.{PaymentStatus}
use stackaura_checkout_api.Store.{Payment, Db}
use stackaura_checkout_api.Payments.Initialize.{initialized_status, Initialization}
use stackaura_checkout_api.Payments.Initialize.Laws.{row_of, HasOutcome, initialize-HasOutcome}
use stackaura_checkout_api.Payments.Create.{
  Surroundings, with_row, State, Response, created, replayed, Prepared, Lookup, free, known,
  other_body, look_up_key, store_key, prepare, initialize, create_payment,
  get_payment_response_by_id, found_payment, conclude, carry_out, answer,
}
use stackaura_checkout_api.Payments.CreateRequest.{CreatePaymentDto, normalize_idempotency_key}
use stackaura_checkout_api.Payments.Create.Rows.{look_up_key-store_key, find_of_row}
use stackaura_checkout_api.Payments.Create.Accepted.{IsPrepared, prepare-IsPrepared}

module _ (around : Surroundings) where
  -- What a call that creates a payment has done.
  pub record HasCreated (m : String) (dto : CreatePaymentDto) (key : Option String) (st : State)
      (p : Payment) (i : Initialization) (st' : State) : Type 0 where
    pub ready : Prepared
    pub signed_in : truthy (trim m) ≡ true
    pub prepared : IsPrepared around (trim m) dto st.db.payments ready
    pub row : ready.payment ≡ p
    pub initialized : initialize around dto ready st.db ≡ (st'.db, ok i)
    pub stored :
        st'.keys
        ≡ store_key (trim m) (normalize_idempotency_key key) (around.request_hash dto) p.id st.keys

  conclude_inv :
      (m : String) (key : Option String) (dto : CreatePaymentDto) (ready : Prepared)
      (st st' : State) (p : Payment) (i : Initialization) (out : Db × Result Initialization)
      → conclude around m key dto ready st out ≡ (st', ok (created p i))
      → (out ≡ (st'.db, ok i))
        × (ready.payment ≡ p)
        × (st'.keys ≡ store_key m key (around.request_hash dto) p.id st.keys)
  conclude_inv m key dto ready st st' p i (db, err e) h =
      let bad : err e ≡ ok (created p i) = ap (λ (o : State × Result Response). o.1) h in cc
  conclude_inv m key dto ready st st' p i (db, ok i') h =
      let same : created ready.payment i' ≡ created p i =
        of_ok (ap (λ (o : State × Result Response). o.1) h) in
      let row : ready.payment ≡ p = cc in
      let result : i' ≡ i = cc in
      let whole : db ≡ st'.db = ap (λ (o : State × Result Response). o.0.db) h in
      let keys = ap (λ (o : State × Result Response). o.0.keys) h in
      (
        rw (whole, result) refl,
        row,
        sym keys ∙ ap (λ (q : Payment). store_key m key (around.request_hash dto) q.id st.keys) row,
      )

  carry_out_inv :
      (m : String) (key : Option String) (dto : CreatePaymentDto) (st st' : State) (p : Payment)
      (i : Initialization) (prepared : Result Prepared)
      → carry_out around m key dto st prepared ≡ (st', ok (created p i))
      → (ready : Prepared) × (prepared ≡ ok ready)
        × (ready.payment ≡ p)
        × (initialize around dto ready st.db ≡ (st'.db, ok i))
        × (st'.keys ≡ store_key m key (around.request_hash dto) p.id st.keys)
  carry_out_inv m key dto st st' p i (err e) h =
      let bad : err e ≡ ok (created p i) = ap (λ (o : State × Result Response). o.1) h in cc
  carry_out_inv m key dto st st' p i (ok ready) h =
      let (initialized, row, stored) =
        conclude_inv m key dto ready st st' p i (initialize around dto ready st.db) h in
      (ready, refl, row, initialized, stored)

  replay_not_created :
      (st st' : State) (p : Payment) (i : Initialization) (found : Option Payment)
      → ¬ (◌≡◌ {A = State × Result Response} (st, found_payment found) (st', ok (created p i)))
  replay_not_created st st' p i none h =
      let bad : found_payment none ≡ ok (created p i) =
        ap (λ (o : State × Result Response). o.1) h in
      cc
  replay_not_created st st' p i (some q) h =
      let bad : replayed q ≡ created p i = of_ok (ap (λ (o : State × Result Response). o.1) h) in cc

  answer_inv :
      (m : String) (key : Option String) (dto : CreatePaymentDto) (st st' : State) (p : Payment)
      (i : Initialization) (found : Lookup)
      → answer around m key dto st found ≡ (st', ok (created p i))
      → carry_out around m key dto st (prepare around m dto st.db.payments)
        ≡ (st', ok (created p i))
  unfolding get_payment_response_by_id
  answer_inv m key dto st st' p i free h = h
  answer_inv m key dto st st' p i (known id) h = absurd (replay_not_created st st' p i _ h)
  answer_inv m key dto st st' p i other_body h =
      let bad : err (conflict _) ≡ ok (created p i) = ap (λ (o : State × Result Response). o.1) h in
      cc

  pub create-HasCreated :
      (m : String) (dto : CreatePaymentDto) (key : Option String) (st st' : State) (p : Payment)
      (i : Initialization)
      → create_payment around m dto key st ≡ (st', ok (created p i))
      → HasCreated m dto key st p i st'
  unfolding create_payment
  create-HasCreated m dto key st st' p i h = elim (Bool-cases (truthy (trim m))) [
    | inl t ↦
        let carried =
          answer_inv (trim m) (normalize_idempotency_key key) dto st st' p i _ (rw t at h) in
        let (ready, prepared, row, initialized, stored) =
          carry_out_inv (trim m) (normalize_idempotency_key key) dto st st' p i _ carried in
        record {
          ready = ready;
          signed_in = t;
          prepared = prepare-IsPrepared around (trim m) dto st.db.payments ready prepared;
          row = row;
          initialized = initialized;
          stored = stored;
        }
    | inr f ↦
        let h' = rw f at h in
        let bad : err (unauthorized "Invalid API key") ≡ ok (created p i) =
          ap (λ (o : State × Result Response). o.1) h' in
        cc
  ]

  -- The payment has one open attempt, and its row is the one that was created, with the session's
  -- gateway and reference.
  abbrev pub LeavesOpen : Payment → Initialization → Db → Type 0
  LeavesOpen p i db =
      (open_attempts p.id db.attempts ≡ 1)
      × ((raw : Option String) × (row_of p.id db.payments
            ≡ some (record p {
              gateway = some i.gateway;
              gateway_ref = i.session.external_reference;
              status = PaymentStatus.created;
              raw_gateway = raw;
            })))

  -- The payment's row, as the call that has created it leaves it.
  pub created-row_of :
      (m : String) (dto : CreatePaymentDto) (key : Option String) (st st' : State) (p : Payment)
      (i : Initialization)
      → HasCreated m dto key st p i st'
      → LeavesOpen p i st'.db
  created-row_of m dto key st st' p i c =
      let ready = c.ready in
      let outcome =
        initialize-HasOutcome (around.redirect dto ready.merchant ready.payment)
          around.new_attempt_id around.render ready.payment 0 [] ready.plan.fallback ready.decision
          (with_row around ready st.db) ready.payment (simp eq_refl) in
      let (one, (raw, row), _) =
        subst
          (λ (o : Db × Result Initialization).
            HasOutcome ready.payment ready.payment (open_attempts ready.payment.id st.db.attempts)
              (record { fallback_count = 0; initialization_failures = []; last_error = none }) o.1
              o.0)
          c.initialized outcome in
      let status : ready.payment.status ≡ PaymentStatus.created =
        ap (λ (q : Payment). q.status) c.prepared.payment in
      subst (λ (q : Payment). LeavesOpen q i st'.db) c.row
        (
          one,
          (
            raw,
            row
                ∙ ap
                    (λ (s : PaymentStatus). some (record ready.payment {
                      gateway = some i.gateway;
                      gateway_ref = i.session.external_reference;
                      status = initialized_status s;
                      raw_gateway = raw;
                    }))
                    status,
          ),
        )

module _ (around later : Surroundings) where
  -- A call that has created a payment under a key, and the same request under that key again, at
  -- whatever later time: the state stays, and the answer is built from the row of the same payment,
  -- which is at the gateway that the first call has opened.
  pub create-replayed :
      (m : String) (dto : CreatePaymentDto) (key : Option String) (k : String) (st st' : State)
      (p : Payment) (i : Initialization)
      → normalize_idempotency_key key ≡ some k
      → later.request_hash dto ≡ around.request_hash dto
      → create_payment around m dto key st ≡ (st', ok (created p i))
      → (q : Payment) × (create_payment later m dto key st' ≡ (st', ok (replayed q)))
        × (q.id ≡ p.id)
        × (q.merchant_id ≡ trim m)
        × (q.gateway ≡ some i.gateway)
  unfolding create_payment get_payment_response_by_id
  create-replayed m dto key k st st' p i named same h =
      let c = create-HasCreated around m dto key st st' p i h in
      let (_, (raw, row)) = created-row_of around m dto key st st' p i c in
      let owner : p.merchant_id ≡ trim m =
        sym (ap (λ (q : Payment). q.merchant_id) c.row)
        ∙ ap (λ (q : Payment). q.merchant_id) c.prepared.payment in
      let q : Payment = record p {
        gateway = some i.gateway;
        gateway_ref = i.session.external_reference;
        status = PaymentStatus.created;
        raw_gateway = raw;
      } in
      let stored : st'.keys ≡ store_key (trim m) (some k) (around.request_hash dto) p.id st.keys =
        c.stored ∙ ap (λ o. store_key (trim m) o (around.request_hash dto) p.id st.keys) named in
      let looked : look_up_key (trim m) (some k) (later.request_hash dto) st'.keys ≡ known p.id =
        rw (same, stored)
          (look_up_key-store_key (trim m) k (around.request_hash dto) p.id st.keys) in
      let shown = find_of_row p.id (trim m) st'.db.payments row owner in
      (q, rw (c.signed_in, named, looked, shown) refl, refl, owner, refl)

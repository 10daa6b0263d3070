-- ===== src/Payments/Ledger/Recording.antt =====
-- Recording the ledger of a payment by its id.
use text.Mathlib.TextPositions.{eq_refl}
use stackaura_checkout_api.Base.{
  String, Bool, true, false, List, [], ◌∷◌, ◌++◌, ◌==◌, ◌||◌, string_eq, filter, find?, any, ◌≡◌,
  inl, inr, arith, refl, ap, ◌∙◌, Bool-cases,
}
use stackaura_checkout_api.Base.Int.{pos, ltb_ℤ}
use stackaura_checkout_api.Base.Result.{Result, ok, bad_request, ◌>>=◌, require_inv, >>=-eq-ok}
use stackaura_checkout_api.Base.Text.{trim, truthy}
use stackaura_checkout_api.Domain.{paid, payment_status_eq}
use stackaura_checkout_api.Store.{Payment, LedgerEntry}
use stackaura_checkout_api.Payments.Ledger.{
  create_ledger_entry, customer_entry, merchant_entry, fee_entry, successful_entries,
  write_successful_payment_ledger, is_for, args_of, record_payment, existing_or_written,
  record_successful_payment_ledger_by_payment_id, found,
}
use stackaura_checkout_api.Payments.Ledger.Laws.{filter-append, write_inv}

any-append :
    (p : LedgerEntry → Bool) (xs ys : List LedgerEntry) → any p (xs ++ ys) ≡ (any p xs || any p ys)
any-append p [] ys = refl
any-append p (x ∷ xs) ys = elim (Bool-cases (p x)) [
  | inl t ↦ rw t
  | inr f ↦ rw f (any-append p xs ys)
]

filter_of_none :
    (p : LedgerEntry → Bool) (xs : List LedgerEntry) → any p xs ≡ false → filter p xs ≡ []
filter_of_none p [] h = refl
filter_of_none p (x ∷ xs) h = elim (Bool-cases (p x)) [
  | inl t ↦ absurd (ground arith)
  | inr f ↦ rw f (filter_of_none p xs (rw f at h))
]

-- Every row written for a payment names it.
rows_are_for :
    (ledger : List LedgerEntry) (payment : Payment)
    → let rows = successful_entries ledger (args_of payment) in
      (any (is_for payment.id) rows ≡ true) × (filter (is_for payment.id) rows ≡ rows)
unfolding successful_entries customer_entry merchant_entry fee_entry create_ledger_entry
rows_are_for ledger payment = elim (Bool-cases (ltb_ℤ (pos 0) (pos payment.platform_fee_cents))) [
  | inl t ↦ rw t (simp eq_refl, simp eq_refl)
  | inr f ↦ rw f (simp eq_refl, simp eq_refl)
]

pair_of_ok :
    {a c : List LedgerEntry} {b d : List LedgerEntry}
    → ◌≡◌ {A = Result (List LedgerEntry × List LedgerEntry)} (ok (a, b)) (ok (c, d))
    → (a ≡ c) × (b ≡ d)
pair_of_ok e = (cc, cc)

existing_or_written_again :
    (ledger : List LedgerEntry) (payment : Payment) (ledger' rows : List LedgerEntry)
    → existing_or_written ledger payment ≡ ok (ledger', rows)
    → existing_or_written ledger' payment ≡ ok (ledger', rows)
unfolding existing_or_written
existing_or_written_again ledger payment ledger' rows e =
    let p = is_for payment.id in
    elim (Bool-cases (any p ledger)) [
      | inl t ↦ let (l, r) = pair_of_ok (rw t at e) in rw (← l, t) (ap (λ x. ok (ledger, x)) r)
      | inr f ↦
          let (written, w, e') =
            >>=-eq-ok (write_successful_payment_ledger ledger (args_of payment))
              (λ rs. ok (ledger ++ rs, rs)) (rw f at e) in
          let (l, r) = pair_of_ok e' in
          let same = (write_inv ledger (args_of payment) written w).0 in
          let (named, kept) = rows_are_for ledger payment in
          let there : any p (ledger ++ written) ≡ true =
            any-append p ledger written ∙ rw (f, same) named in
          let rest : filter p (ledger ++ written) ≡ written =
            filter-append p ledger written ∙ rw (filter_of_none p ledger f, same) kept in
          rw (← l, ← r, there, rest)
    ]

record_payment_again :
    (ledger : List LedgerEntry) (payment : Payment) (ledger' rows : List LedgerEntry)
    → record_payment ledger payment ≡ ok (ledger', rows)
    → record_payment ledger' payment ≡ ok (ledger', rows)
unfolding record_payment
record_payment_again ledger payment ledger' rows e =
    let (is_paid, e') =
      require_inv (payment.status == paid)
        (bad_request "Ledger can only be recorded for paid payments")
        (existing_or_written ledger payment) e in
    rw is_paid (existing_or_written_again ledger payment ledger' rows e')

-- Recording a payment a second time writes nothing and answers with the rows of the first time.
pub record_idempotent :
    (payments : List Payment) (ledger : List LedgerEntry) (id : String)
    (ledger' rows : List LedgerEntry)
    → record_successful_payment_ledger_by_payment_id payments ledger id ≡ ok (ledger', rows)
    → record_successful_payment_ledger_by_payment_id payments ledger' id ≡ ok (ledger', rows)
unfolding record_successful_payment_ledger_by_payment_id
record_idempotent payments ledger id ledger' rows e =
    let (given, e1) =
      require_inv (truthy (trim id)) (bad_request "paymentId is required")
        (found (find? (λ p. p.id == trim id) payments) >>= record_payment ledger) e in
    let (payment, there, e2) =
      >>=-eq-ok (found (find? (λ p. p.id == trim id) payments)) (record_payment ledger) e1 in
    rw given (rw there (record_payment_again ledger payment ledger' rows e2))

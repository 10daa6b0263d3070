-- ===== src/Payments/Ledger.antt =====
-- src/payments/payments.service.ts: the double-entry ledger of paid payments.
pub mod Laws
pub mod Recording
use stackaura_checkout_api.Base.{
  ℕ, String, Bool, true, false, not, Option, none, some, List, [], ◌∷◌, ◌++◌, ◌==◌, ◌&&◌, ◌||◌,
  string_eq, nat_beq, Eq, filter, find?, any, if◌then◌else◌, ◌otherwise◌, ◌≡◌, ◌↔◌, arith,
}
use stackaura_checkout_api.Base.Int.{ℤ, pos, negsuc, ◌+ℤ◌, neg, ltb_ℤ, pos_part, neg_part}
use stackaura_checkout_api.Base.Result.{
  Result, ok, err, bad_request, not_found, ◌>>=◌, ◌>>◌, require,
}
use stackaura_checkout_api.Base.Text.{trim, truthy}
use stackaura_checkout_api.Domain.{PaymentStatus, paid, payment_status_eq}
use stackaura_checkout_api.Store.{
  Payment, LedgerAccount, customer_funds, merchant_balance, platform_fees, gateway_settlement,
  LedgerDirection, debit, credit, LedgerEntry,
}

abbrev pub account_index : LedgerAccount → ℕ
account_index customer_funds = 0
account_index merchant_balance = 1
account_index platform_fees = 2
account_index gateway_settlement = 3

-- The amount as it counts in a balance: credits up, debits down.
unfoldable pub signed : LedgerDirection → ℤ → ℤ
signed credit amount = amount
signed debit amount = neg amount

abbrev pub is_of : String → LedgerAccount → LedgerEntry → Bool
is_of merchant_id account entry =
    entry.merchant_id == merchant_id
    && nat_beq (account_index entry.account) (account_index account)

-- The `reduce` over the rows that the query selects.
unfoldable pub balance_from : ℤ → List LedgerEntry → ℤ
balance_from sum [] = sum
balance_from sum (e ∷ es) = balance_from (sum +ℤ signed e.direction e.amount_cents) es

unfoldable pub compute_ledger_balance_after :
    List LedgerEntry → String → LedgerAccount → LedgerDirection → ℤ → ℤ
compute_ledger_balance_after ledger merchant_id account direction amount_cents =
    balance_from (pos 0) (filter (is_of merchant_id account) ledger)
    +ℤ signed direction amount_cents

-- What `writeSuccessfulPaymentLedger` is called with.
pub record LedgerArgs : Type 0 where
  pub merchant_id : String
  pub amount_cents : ℤ
  pub currency : String
  pub platform_fee_cents : ℤ
  pub merchant_net_cents : ℤ
  pub payment_intent_id : Option String
  pub payment_id : Option String
  pub description : Option String

-- `createLedgerEntry`: the new row; it goes to the end of the ledger.
unfoldable pub create_ledger_entry :
    List LedgerEntry → LedgerArgs → LedgerAccount → LedgerDirection → ℤ → String → LedgerEntry
create_ledger_entry ledger args account direction amount_cents description = record {
  merchant_id = args.merchant_id;
  payment_intent_id = args.payment_intent_id;
  payment_id = args.payment_id;
  account = account;
  direction = direction;
  amount_cents = amount_cents;
  currency = args.currency;
  balance_after =
      compute_ledger_balance_after ledger args.merchant_id account direction amount_cents;
  description = some description;
}

abbrev pub insert : List LedgerEntry → LedgerEntry → List LedgerEntry
insert ledger entry = ledger ++ entry ∷ []

unfoldable pub customer_entry : List LedgerEntry → LedgerArgs → LedgerEntry
customer_entry ledger args =
    create_ledger_entry ledger args customer_funds debit args.amount_cents
      (args.description otherwise "Customer payment received")

unfoldable pub merchant_entry : List LedgerEntry → LedgerArgs → LedgerEntry
merchant_entry ledger args =
    create_ledger_entry ledger args merchant_balance credit args.merchant_net_cents
      "Merchant balance credited"

unfoldable pub fee_entry : List LedgerEntry → LedgerArgs → LedgerEntry
fee_entry ledger args =
    create_ledger_entry ledger args platform_fees credit args.platform_fee_cents
      "Stackaura platform fee"

-- The rows of the transaction, each computed on the ledger that the ones before it have left.
unfoldable pub successful_entries : List LedgerEntry → LedgerArgs → List LedgerEntry
successful_entries ledger args =
    let first = customer_entry ledger args in
    let second = merchant_entry (insert ledger first) args in
    let third = fee_entry (insert (insert ledger first) second) args in
    if ltb_ℤ (pos 0) args.platform_fee_cents
    then first ∷ second ∷ third ∷ []
    else first ∷ second ∷ []

abbrev pub eq_ℤ : ℤ → ℤ → Bool
eq_ℤ a b = not (ltb_ℤ a b) && not (ltb_ℤ b a)

-- The rows written, on success; the new ledger is the old one with these rows at its end.
unfoldable pub write_successful_payment_ledger :
    List LedgerEntry → LedgerArgs → Result (List LedgerEntry)
write_successful_payment_ledger ledger args = do
  require (ltb_ℤ (pos 0) args.amount_cents) (bad_request "amountCents must be positive")
  require (not (ltb_ℤ args.platform_fee_cents (pos 0) || ltb_ℤ args.merchant_net_cents (pos 0)))
      (bad_request "Ledger amounts cannot be negative")
  require (eq_ℤ (args.platform_fee_cents +ℤ args.merchant_net_cents) args.amount_cents)
      (bad_request "Ledger amounts must balance to total payment amount")
  ok (successful_entries ledger args)

abbrev pub is_for : String → LedgerEntry → Bool
is_for payment_id entry = elim entry.payment_id [ none ↦ false | some p ↦ p == payment_id ]

abbrev pub args_of : Payment → LedgerArgs
args_of payment = record {
  merchant_id = payment.merchant_id;
  amount_cents = pos payment.amount_cents;
  currency = payment.currency;
  platform_fee_cents = pos payment.platform_fee_cents;
  merchant_net_cents = pos payment.merchant_net_cents;
  payment_intent_id = none;
  payment_id = some payment.id;
  description = some (payment.description otherwise "Customer payment received");
}

-- The rows that the ledger has for a payment, or else those written now; the ledger after the call
-- comes first.
unfoldable pub existing_or_written :
    List LedgerEntry → Payment → Result (List LedgerEntry × List LedgerEntry)
existing_or_written ledger payment =
    if any (is_for payment.id) ledger
    then ok (ledger, filter (is_for payment.id) ledger)
    else (write_successful_payment_ledger ledger (args_of payment) >>= λ rows.
        ok (ledger ++ rows, rows))

unfoldable pub record_payment :
    List LedgerEntry → Payment → Result (List LedgerEntry × List LedgerEntry)
record_payment ledger payment = do
  require (payment.status == paid) (bad_request "Ledger can only be recorded for paid payments")
  existing_or_written ledger payment

-- `payment` of the query, or the exception when there is none.
abbrev found : Option Payment → Result Payment
found none = err (not_found "Payment not found")
found (some p) = ok p

unfoldable pub record_successful_payment_ledger_by_payment_id :
    List Payment → List LedgerEntry → String → Result (List LedgerEntry × List LedgerEntry)
record_successful_payment_ledger_by_payment_id payments ledger payment_id_plain = do
  require (truthy (trim payment_id_plain)) (bad_request "paymentId is required")
  payment ← found (find? (λ p. p.id == trim payment_id_plain) payments)
  record_payment ledger payment

-- ===== src/Tests/Ledger.antt =====
-- The status of a payment, and the ledger of one that was paid.
use stackaura_checkout_api.Base.{true, false, none, List, [], ◌∷◌, ◌≡◌, refl, ◌↔◌, ◌+◌, ◌<◌}
use stackaura_checkout_api.Base.Int.{pos, ◌+ℤ◌}
use stackaura_checkout_api.Base.Result.{ok}
use stackaura_checkout_api.Base.Text.{trim}
use stackaura_checkout_api.Domain.{created, pending, paid}
use stackaura_checkout_api.Store.{Payment, LedgerEntry}
use stackaura_checkout_api.Payments.Status.{can_transition_payment_status}
use stackaura_checkout_api.Payments.Monetization.{FeePolicy, policy_of, PolicySource}
use stackaura_checkout_api.Payments.Ledger.{
  args_of, balance_from, successful_entries, write_successful_payment_ledger, existing_or_written,
  record_payment, record_successful_payment_ledger_by_payment_id,
}
use stackaura_checkout_api.Payments.Ledger.Recording.{record_idempotent}
use stackaura_checkout_api.Payments.Ledger.Laws.{
  IsRunning, with_amounts, write_accepts_iff, write_balances, write-IsRunning,
}

abbrev payment : Payment
payment = record {
  id = "p1";
  merchant_id = "m1";
  reference = "r1";
  currency = "ZAR";
  amount_cents = 1000;
  platform_fee_cents = 50;
  merchant_net_cents = 950;
  status = paid;
  gateway = none;
  gateway_ref = none;
  raw_gateway = none;
  description = none;
}

abbrev rows : List LedgerEntry
rows = successful_entries [] (args_of payment)

written : write_successful_payment_ledger [] (args_of payment) ≡ ok rows
unfolding write_successful_payment_ledger ◌+ℤ◌
written = refl

recorded : record_successful_payment_ledger_by_payment_id (payment ∷ []) [] " p1 " ≡ ok (rows, rows)
unfolding record_successful_payment_ledger_by_payment_id record_payment existing_or_written
    write_successful_payment_ledger ◌+ℤ◌ trim
recorded = refl

write_balances_example : balance_from (pos 0) rows ≡ pos 0
write_balances_example = write_balances [] (args_of payment) rows written

write-IsRunning_example : IsRunning [] rows
write-IsRunning_example = write-IsRunning [] (args_of payment) rows tt written

record_idempotent_example :
    record_successful_payment_ledger_by_payment_id (payment ∷ []) rows " p1 " ≡ ok (rows, rows)
record_idempotent_example = record_idempotent (payment ∷ []) [] " p1 " rows rows recorded

write_accepts_iff_example :
    (write_successful_payment_ledger [] (with_amounts (args_of payment) 1000 50 950)
      ≡ ok (successful_entries [] (with_amounts (args_of payment) 1000 50 950)))
    ↔ ((0 < 1000) × (50 + 950 ≡ 1000))
write_accepts_iff_example = write_accepts_iff [] (args_of payment) 1000 50 950

abbrev policy : FeePolicy
policy = policy_of 100 250 PolicySource.platform_default false

stays_paid : can_transition_payment_status paid paid ≡ true
unfolding can_transition_payment_status
stays_paid = refl

paid_late :
    (can_transition_payment_status created pending ≡ true)
    × (can_transition_payment_status pending paid ≡ true)
unfolding can_transition_payment_status
paid_late = (refl, refl)

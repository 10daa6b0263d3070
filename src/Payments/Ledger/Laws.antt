-- ===== src/Payments/Ledger/Laws.antt =====
-- The ledger: running balances, double entry, and recording a payment once.
use mathlib.Core.List.{append_assoc, append-nil}
use text.Mathlib.TextPositions.{eq_refl}
use stackaura_checkout_api.Base.{
  ℕ, ◌+◌, ◌<◌, String, Bool, true, false, not, some, List, [], ◌∷◌, ◌++◌, ◌||◌, string_eq, nat_beq,
  filter, ◌≡◌, ◌↔◌, inl, inr, arith, refl, sym, ap, Bool-cases,
}
use stackaura_checkout_api.Base.Int.{ℤ, pos, ◌+ℤ◌, ltb_ℤ, pos_part, neg_part, int_laws}
use stackaura_checkout_api.Base.Result.{ok, bad_request, ◌>>◌, require}
use stackaura_checkout_api.Domain.{payment_status_eq}
use stackaura_checkout_api.Store.{
  LedgerAccount, customer_funds, merchant_balance, platform_fees, LedgerDirection, debit, credit,
  LedgerEntry,
}
use stackaura_checkout_api.Payments.Monetization.{FeePolicy, compute_platform_fee_breakdown}
use stackaura_checkout_api.Payments.Monetization.Laws.{breakdown_exact}
use stackaura_checkout_api.Payments.Ledger.{
  signed, is_of, balance_from, compute_ledger_balance_after, LedgerArgs, create_ledger_entry,
  insert, customer_entry, merchant_entry, fee_entry, successful_entries, eq_ℤ,
  write_successful_payment_ledger,
}

-- The balance of an account of a merchant over all rows of a ledger.
abbrev pub balance : List LedgerEntry → String → LedgerAccount → ℤ
balance ledger merchant_id account =
    balance_from (pos 0) (filter (is_of merchant_id account) ledger)

-- Each row after `before` shows the balance of its account over the rows up to and including it.
abbrev pub IsRunning : List LedgerEntry → List LedgerEntry → Type 0
IsRunning before [] = Unit
IsRunning before (e ∷ es) =
    (e.balance_after ≡ balance (before ++ e ∷ []) e.merchant_id e.account)
    × IsRunning (before ++ e ∷ []) es

balance_from-append :
    (s : ℤ) (xs ys : List LedgerEntry)
    → balance_from s (xs ++ ys) ≡ balance_from (balance_from s xs) ys
unfolding balance_from
balance_from-append s [] ys = refl
balance_from-append s (x ∷ xs) ys =
    balance_from-append (s +ℤ signed x.direction x.amount_cents) xs ys

pub filter-append :
    (p : LedgerEntry → Bool) (xs ys : List LedgerEntry)
    → filter p (xs ++ ys) ≡ filter p xs ++ filter p ys
filter-append p [] ys = refl
filter-append p (x ∷ xs) ys = elim (Bool-cases (p x)) [
  | inl t ↦ rw t (ap (λ r. x ∷ r) (filter-append p xs ys))
  | inr f ↦ rw f (filter-append p xs ys)
]

nat_beq_refl : (n : ℕ) → nat_beq n n ≡ true
nat_beq_refl n = ground arith

-- A row that `createLedgerEntry` makes shows the balance that includes it.
create_ledger_entry_running :
    (ledger : List LedgerEntry) (args : LedgerArgs) (account : LedgerAccount)
    (direction : LedgerDirection) (amount : ℤ) (text : String)
    → let e = create_ledger_entry ledger args account direction amount text in
      e.balance_after ≡ balance (ledger ++ e ∷ []) e.merchant_id e.account
unfolding create_ledger_entry compute_ledger_balance_after balance_from
create_ledger_entry_running ledger args account direction amount text =
    simp (filter-append, balance_from-append, eq_refl, nat_beq_refl)

IsRunning-append :
    (before xs ys : List LedgerEntry)
    → IsRunning before xs
    → IsRunning (before ++ xs) ys
    → IsRunning before (xs ++ ys)
IsRunning-append before [] ys h k = rw append-nil at k
IsRunning-append before (x ∷ xs) ys (p, h) k =
    (p, IsRunning-append (before ++ x ∷ []) xs ys h (rw append_assoc k))

successful_entries-IsRunning :
    (ledger : List LedgerEntry) (args : LedgerArgs)
    → IsRunning ledger (successful_entries ledger args)
unfolding successful_entries customer_entry merchant_entry fee_entry create_ledger_entry
successful_entries-IsRunning ledger args =
    let first = customer_entry ledger args in
    let second = merchant_entry (insert ledger first) args in
    let before = insert (insert ledger first) second in
    elim (Bool-cases (ltb_ℤ (pos 0) args.platform_fee_cents)) [
      | inl t ↦ rw t (
        create_ledger_entry_running ledger args customer_funds debit _ _,
        (
          create_ledger_entry_running (insert ledger first) args merchant_balance credit _ _,
          (create_ledger_entry_running before args platform_fees credit _ _, tt),
        ),
      )
      | inr f ↦ rw f (
        create_ledger_entry_running ledger args customer_funds debit _ _,
        (create_ledger_entry_running (insert ledger first) args merchant_balance credit _ _, tt),
      )
    ]

-- The three guards in a row, and what is left when they have passed.
pub guards_inv :
    (a b c : Bool) (entries rows : List LedgerEntry)
    → (require a (bad_request "amountCents must be positive")
        >> (require (not b) (bad_request "Ledger amounts cannot be negative")
            >> (require c (bad_request "Ledger amounts must balance to total payment amount")
                >> ok entries)))
      ≡ ok rows
    → (b ≡ false) × (c ≡ true) × (entries ≡ rows)
guards_inv true false true entries rows e = (refl, refl, cc)
guards_inv false b c entries rows e = absurd (cc)
guards_inv true true c entries rows e = absurd (cc)
guards_inv true false false entries rows e = absurd (cc)

eq_of_eq_ℤ : (a b : ℤ) → eq_ℤ a b ≡ true → a ≡ b
eq_of_eq_ℤ a b h = ground arith

-- What the guards let through.
pub write_inv :
    (ledger : List LedgerEntry) (args : LedgerArgs) (rows : List LedgerEntry)
    → write_successful_payment_ledger ledger args ≡ ok rows
    → (rows ≡ successful_entries ledger args)
      × (args.platform_fee_cents +ℤ args.merchant_net_cents ≡ args.amount_cents)
      × (ltb_ℤ args.platform_fee_cents (pos 0) ≡ false)
unfolding write_successful_payment_ledger
write_inv ledger args rows e =
    let (nonneg, sum, e') =
      guards_inv (ltb_ℤ (pos 0) args.amount_cents)
        (ltb_ℤ args.platform_fee_cents (pos 0) || ltb_ℤ args.merchant_net_cents (pos 0))
        (eq_ℤ (args.platform_fee_cents +ℤ args.merchant_net_cents) args.amount_cents)
        (successful_entries ledger args) rows e in
    (sym e', eq_of_eq_ℤ _ _ sum, ground arith)

abbrev pub with_amounts : LedgerArgs → ℕ → ℕ → ℕ → LedgerArgs
with_amounts args amount fee net = record args {
  amount_cents = pos amount;
  platform_fee_cents = pos fee;
  merchant_net_cents = pos net;
}

-- Where no amount is negative, a payment's rows are accepted exactly when the amount is above 0
-- and the fee and the merchant's part add up to it.
pub write_accepts_iff :
    (ledger : List LedgerEntry) (args : LedgerArgs) (amount fee net : ℕ)
    → (write_successful_payment_ledger ledger (with_amounts args amount fee net)
        ≡ ok (successful_entries ledger (with_amounts args amount fee net)))
      ↔ ((0 < amount) × (fee + net ≡ amount))
unfolding write_successful_payment_ledger ◌+ℤ◌
write_accepts_iff ledger args amount fee net = ground arith

zero_of : {a : ℤ} → ltb_ℤ (pos 0) a ≡ false → ltb_ℤ a (pos 0) ≡ false → a ≡ pos 0
zero_of h k = ground arith

-- Double entry: the rows written for a payment add up to 0 over all accounts, whatever amounts
-- were accepted.
pub write_balances :
    (ledger : List LedgerEntry) (args : LedgerArgs) (rows : List LedgerEntry)
    → write_successful_payment_ledger ledger args ≡ ok rows
    → balance_from (pos 0) rows ≡ pos 0
unfolding successful_entries balance_from customer_entry merchant_entry fee_entry
    create_ledger_entry signed
write_balances ledger args rows e =
    let (same, sum, nonneg) = write_inv ledger args rows e in
    rw same (elim (Bool-cases (ltb_ℤ (pos 0) args.platform_fee_cents)) [
      | inl t ↦ rw t (omega (int_laws, ap pos_part sum, ap neg_part sum))
      | inr f ↦ rw f (
          omega (
            int_laws,
            ap pos_part sum,
            ap neg_part sum,
            ap pos_part (zero_of f nonneg),
            ap neg_part (zero_of f nonneg),
          ))
    ])

-- A ledger whose rows all show their running balance keeps that property when a payment's rows are
-- added.
pub write-IsRunning :
    (ledger : List LedgerEntry) (args : LedgerArgs) (rows : List LedgerEntry)
    → IsRunning [] ledger
    → write_successful_payment_ledger ledger args ≡ ok rows
    → IsRunning [] (ledger ++ rows)
write-IsRunning ledger args rows h e =
    IsRunning-append [] ledger rows h
      (rw (write_inv ledger args rows e).0 (successful_entries-IsRunning ledger args))

-- The amounts of every payment that is priced by a fee policy are accepted by the ledger: for a
-- base amount above 0, the charge, the fee and the merchant's part of the breakdown pass its guards.
pub write_accepts_breakdown :
    (ledger : List LedgerEntry) (args : LedgerArgs) (base : ℕ) (policy : FeePolicy)
    → 0 < base
    → let b = compute_platform_fee_breakdown (some (pos base)) policy in
      let priced =
        with_amounts args b.charge_amount_cents b.platform_fee_cents b.merchant_net_cents in
      write_successful_payment_ledger ledger priced ≡ ok (successful_entries ledger priced)
write_accepts_breakdown ledger args base policy h =
    let b = compute_platform_fee_breakdown (some (pos base)) policy in
    let (charge, net, _, _) = breakdown_exact base policy in
    (write_accepts_iff ledger args b.charge_amount_cents b.platform_fee_cents
        b.merchant_net_cents).1
      (omega arith, omega arith)

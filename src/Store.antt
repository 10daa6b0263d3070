-- ===== src/Store.antt =====
-- The rows of prisma/schema.prisma that the services read and write, and the database as the lists
-- of its rows. Lists that the services order by `createdAt` have the newest row first, but for the
-- ledger, which has the oldest first. A JSON column holds its text.
pub mod Keys
use stackaura_checkout_api.Base.{
  ℕ, String, Bool, Option, none, some, List, [], ◌∷◌, ◌==◌, string_eq, find?, update_where,
}
use stackaura_checkout_api.Base.Int.{ℤ}
use stackaura_checkout_api.Domain.{PaymentStatus, AttemptStatus, GatewayProvider, PayoutStatus}

-- `model Payment`
pub record Payment : Type 0 where
  pub id : String
  pub merchant_id : String
  pub reference : String
  pub currency : String
  pub amount_cents : ℕ
  pub platform_fee_cents : ℕ
  pub merchant_net_cents : ℕ
  pub status : PaymentStatus
  pub gateway : Option GatewayProvider
  pub gateway_ref : Option String
  pub raw_gateway : Option String
  pub description : Option String

-- `model PaymentAttempt`
pub record Attempt : Type 0 where
  pub id : String
  pub payment_id : String
  pub gateway : GatewayProvider
  pub status : AttemptStatus
  pub redirect_url : String

-- `model Payout`
pub record Payout : Type 0 where
  pub id : String
  pub merchant_id : String
  pub reference : String
  pub idempotency_key : Option String
  pub currency : String
  pub amount_cents : ℕ
  pub status : PayoutStatus
  pub deriv_account_id : Option String
  pub beneficiary_name : Option String
  pub provider_ref : Option String
  pub failure_code : Option String
  pub failure_message : Option String
  pub raw_provider : Option String

-- `model WebhookEvent`; `processed_at` is a time in milliseconds.
pub record WebhookEvent : Type 0 where
  pub provider : String
  pub provider_event_id : String
  pub event_type : Option String
  pub payout_reference : Option String
  pub payload : String
  pub signature : Option String
  pub processed_at : Option ℕ

pub data LedgerAccount : Type 0 where
  customer_funds merchant_balance platform_fees gateway_settlement : LedgerAccount

pub data LedgerDirection : Type 0 where
  debit credit : LedgerDirection

-- `model LedgerEntry`
pub record LedgerEntry : Type 0 where
  pub merchant_id : String
  pub payment_intent_id : Option String
  pub payment_id : Option String
  pub account : LedgerAccount
  pub direction : LedgerDirection
  pub amount_cents : ℤ
  pub currency : String
  pub balance_after : ℤ
  pub description : Option String

pub record Db : Type 0 where
  pub payments : List Payment
  pub attempts : List Attempt
  pub payouts : List Payout
  pub events : List WebhookEvent

-- ===== src/Domain.antt =====
-- The enumerations of prisma/schema.prisma that the services share, the process environment, and
-- values of type `unknown`.
use stackaura_checkout_api.Base.{ℕ, String, Bool, true, Option, Eq, nat_beq, ◌≡◌, ◌↔◌, arith}
use stackaura_checkout_api.Base.Int.{ℤ}

-- `enum PaymentStatus`
pub data PaymentStatus : Type 0 where
  created pending paid failed cancelled refunded : PaymentStatus

-- The values that the code writes to the text column `PaymentAttempt.status`.
pub data AttemptStatus : Type 0 where
  created pending succeeded failed cancelled : AttemptStatus

-- `enum GatewayProvider`
pub data GatewayProvider : Type 0 where
  payfast ozow yoco paystack peach : GatewayProvider

-- `enum PayoutStatus`
pub data PayoutStatus : Type 0 where
  created pending success failed : PayoutStatus

abbrev pub payment_status_index : PaymentStatus → ℕ
payment_status_index PaymentStatus.created = 0
payment_status_index PaymentStatus.pending = 1
payment_status_index PaymentStatus.paid = 2
payment_status_index PaymentStatus.failed = 3
payment_status_index PaymentStatus.cancelled = 4
payment_status_index PaymentStatus.refunded = 5

abbrev pub attempt_status_index : AttemptStatus → ℕ
attempt_status_index AttemptStatus.created = 0
attempt_status_index AttemptStatus.pending = 1
attempt_status_index AttemptStatus.succeeded = 2
attempt_status_index AttemptStatus.failed = 3
attempt_status_index AttemptStatus.cancelled = 4

abbrev pub gateway_index : GatewayProvider → ℕ
gateway_index payfast = 0
gateway_index ozow = 1
gateway_index yoco = 2
gateway_index paystack = 3
gateway_index peach = 4

abbrev pub payout_status_index : PayoutStatus → ℕ
payout_status_index PayoutStatus.created = 0
payout_status_index PayoutStatus.pending = 1
payout_status_index PayoutStatus.success = 2
payout_status_index PayoutStatus.failed = 3

abbrev payment_status_beq : PaymentStatus → PaymentStatus → Bool
payment_status_beq a b = nat_beq (payment_status_index a) (payment_status_index b)

abbrev attempt_status_beq : AttemptStatus → AttemptStatus → Bool
attempt_status_beq a b = nat_beq (attempt_status_index a) (attempt_status_index b)

abbrev gateway_beq : GatewayProvider → GatewayProvider → Bool
gateway_beq a b = nat_beq (gateway_index a) (gateway_index b)

abbrev payout_status_beq : PayoutStatus → PayoutStatus → Bool
payout_status_beq a b = nat_beq (payout_status_index a) (payout_status_index b)

pub payment_status_beq_iff : (a b : PaymentStatus) → (payment_status_beq a b ≡ true) ↔ (a ≡ b)
payment_status_beq_iff a b = ground arith

pub attempt_status_beq_iff : (a b : AttemptStatus) → (attempt_status_beq a b ≡ true) ↔ (a ≡ b)
attempt_status_beq_iff a b = ground arith

pub gateway_beq_iff : (a b : GatewayProvider) → (gateway_beq a b ≡ true) ↔ (a ≡ b)
gateway_beq_iff a b = ground arith

pub payout_status_beq_iff : (a b : PayoutStatus) → (payout_status_beq a b ≡ true) ↔ (a ≡ b)
payout_status_beq_iff a b = ground arith

instance abbrev pub payment_status_eq : Eq PaymentStatus
payment_status_eq = record { beq = payment_status_beq; beq_iff = payment_status_beq_iff }

instance abbrev pub attempt_status_eq : Eq AttemptStatus
attempt_status_eq = record { beq = attempt_status_beq; beq_iff = attempt_status_beq_iff }

instance abbrev pub gateway_eq : Eq GatewayProvider
gateway_eq = record { beq = gateway_beq; beq_iff = gateway_beq_iff }

instance abbrev pub payout_status_eq : Eq PayoutStatus
payout_status_eq = record { beq = payout_status_beq; beq_iff = payout_status_beq_iff }

-- `process.env`, and what `Math.trunc(Number(text))` gives for a text: `none` where
-- `Number(text)` is not finite.
pub record Env : Type 0 where
  pub var : String → Option String
  pub number : String → Option ℤ

-- A value of type `unknown`: a text, nothing, or a value that is no text.
pub data Value : Type 0 where
  undefined null other : Value
  str : String → Value

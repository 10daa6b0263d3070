-- ===== src/Lib.antt =====
-- Verification of the Stackaura checkout API: payments, their fees and ledger, the routing between
-- payment gateways, the webhooks of the providers and to the merchants, and payouts.
--
-- How the parts interact. A call is let in by the guards (src/payouts/api-key.guard.ts,
-- src/auth). A merchant creates a payment under an idempotency key. The merchant's plan
-- (src/payments/monetization.config.ts) prices it;
-- the routing engine (src/routing/routing.engine.ts) orders the gateways that can take it, from what
-- the gateway configurations (src/gateways) say of the merchant's credentials, which are stored
-- encrypted (src/security/secrets.ts); and the gateways are tried in this order until one opens a
-- session. The provider then
-- notifies the service (src/webhooks/webhooks.service.ts), which moves the payment along the table
-- of src/payments/payment-status.transitions.ts and settles its latest attempt; a paid payment is
-- entered in the ledger (src/payments/payments.service.ts), and events go out to the merchant's
-- endpoints. Payouts (src/payouts/payouts.service.ts) are created under an idempotency key and
-- moved along by the payout provider's notifications.
--
-- Which file models which part:
--   Base               lists, texts, integers, exceptions, and the Boolean tests of the sources
--   Domain, Store      the enumerations and rows of prisma/schema.prisma; Store.Keys has the laws of
--                      rows that are found and updated by their key
--   Payments.Status    canTransitionPaymentStatus and the maps from a payment's status
--   Payments.Monetization   computePlatformFeeBreakdown, resolveMerchantPlan and what they call
--   Payments.Ledger    writeSuccessfulPaymentLedger, createLedgerEntry, computeLedgerBalanceAfter,
--                      recordSuccessfulPaymentLedgerByPaymentId
--   Payments.Failover  createFailoverAttempt, resolveNextFailoverDecision and
--                      cancelSupersededOpenAttempts; failoverPayment and autoFailoverByReference
--                      are in Failover.Callers
--   Payments.Initialize     initializePaymentGatewayWithFallback
--   Payments.CreateRequest  the request of createPayment and its parsers; Payments.Create is
--                           createPayment itself
--   Payments.Hosted    continueHostedCheckout and what it reads
--   Payments.Query     the query of listPayments and its parsers; Payments.Listing is listPayments,
--                      and Listing.Walk a client that follows its cursors
--   Gateways           the Yoco, Paystack and Ozow configurations, and the words of Yoco and Paystack
--   Routing            getGatewayReadiness (Readiness) and decide (Decide) of the routing engine
--   Webhooks.Events    the table of webhook events, with receipts and marks
--   Webhooks.Payments  the transactions persistAndApply{Payfast,Ozow,Yoco,Paystack}Webhook
--   Webhooks.Payouts   the transaction persistAndApplyDerivWebhook; EarlyResults is about results
--                      that arrive before a payout is pending
--   Webhooks.Delivery  processPendingDeliveries, attemptWebhookDelivery, handleDeliveryFailure,
--                      nextRetryAt, retryWebhookDelivery; a run over the table is in
--                      Delivery.Runs, and the workers of a run are in Delivery.Workers
--   Payouts            createPayout and getPayoutById
--   Security.Secrets   encryptStoredSecret, decryptStoredSecret and what they call
--   Security.Migration getPlaintextMerchantSecretFields, buildEncryptedMerchantSecretUpdate and the
--                      backup between them
--   Security.Sessions  the sessions of src/auth/auth.service.ts and their guard
--   Security.Access    the guard of API keys, and the list of administrators of src/admin
--   Tests              the theorems at concrete inputs
--
-- How the code is modelled. A table is a list of rows, and an operation is a function from the
-- tables to the new tables and an answer. Exceptions are the errors of a result. A transaction reads
-- a snapshot, which is an argument of its own where another transaction may have written in between;
-- a write that a unique index refuses is an outcome. Concurrent workers are a step relation, since
-- JavaScript runs each of them until it waits. Loops over lists are structural, so that no fuel is
-- needed anywhere. The environment is the record Env: its variables, and what Number makes of a
-- text. JavaScript numbers that hold cents, counts and milliseconds are whole numbers without a
-- bound, which agrees with the source below 2^53; case mapping is that of the ASCII letters.
-- Math.random, the database's choice of the violated index to report, the gateways' answers, the
-- functions of the node crypto library, argon2, and the parsing of dates and numbers are parameters.
-- A client that follows cursors is given a number of steps, and one more than there are rows is
-- shown to be enough.
--
-- Where the README says otherwise, the model follows the code: the order of an automatic decision is
-- the routing engine's own, and the merchant's gatewayOrder, a column that the engine is given, is
-- not read; and the platform's fee is added to what the payer is charged, without an upper bound, and
-- not taken from what the merchant nets.
--
-- Not modelled: the HTTP clients of the gateways; the JSON of the column rawGateway and the form of
-- the responses; the handlers around the transactions of the webhooks, with their signatures; the
-- page of the hosted checkout, payment intents, subscriptions and sign-up; merchants,
-- administration, support, Shopify and the framework's wiring.
pub mod Base
pub mod Domain
pub mod Store
pub mod Payments
pub mod Gateways
pub mod Routing
pub mod Payouts
pub mod Webhooks
pub mod Security
mod Tests

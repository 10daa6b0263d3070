-- ===== src/Payments.antt =====
-- src/payments: the status table, prices, the ledger, and the life of a payment's attempts.
pub mod Status
pub mod Monetization
pub mod Ledger
pub mod Failover
pub mod Initialize
pub mod CreateRequest
pub mod Create
pub mod Hosted
pub mod Query
pub mod Listing

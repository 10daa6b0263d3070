-- ===== src/Webhooks.antt =====
-- src/webhooks: what the providers' notifications do to payments and payouts, and the delivery of
-- the merchants' own notifications.
pub mod Events
pub mod Payments
pub mod Payouts
pub mod Delivery

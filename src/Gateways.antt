-- ===== src/Gateways.antt =====
-- src/gateways: the statuses that the payment providers report, and their configuration.
pub mod Lifecycle
pub mod Yoco
pub mod Paystack
pub mod Ozow

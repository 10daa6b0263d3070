-- ===== src/Tests.antt =====
-- The theorems at concrete inputs, and what the code computes on some.
mod Gateways
mod Monetization
mod Routing
mod Ledger
mod Failovers
mod Notifications
mod Deliveries
mod PayoutRequests
mod Creation
mod Listings
mod Access
mod Hosting

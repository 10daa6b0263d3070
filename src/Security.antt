-- ===== src/Security.antt =====
-- src/security, src/auth, src/admin and src/payouts/api-key.guard.ts: stored secrets, sessions, and
-- who may call.
pub mod Secrets
pub mod Migration
pub mod Sessions
pub mod Access

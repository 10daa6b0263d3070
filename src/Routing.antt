-- ===== src/Routing.antt =====
-- src/routing/routing.engine.ts: which gateway a payment goes to.
pub mod Readiness
pub mod Decide

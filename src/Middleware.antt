-- ===== src/Middleware.antt =====
-- edge/middleware.ts: the storefront's check of the queue token.
pub mod Request
pub mod Enforce
pub mod Claims
pub mod Safety
pub mod Accepts

-- ===== src/Context.antt =====
-- core/context/identity.resolver.ts: the identity of a request.
pub mod Identity
pub mod Store
pub mod Middleware
pub mod Complete
pub mod Trusted
mod Tests

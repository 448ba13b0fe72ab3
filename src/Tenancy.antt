-- ===== src/Tenancy.antt =====
-- core/tenancy: scope predicates, bypass grants and the entities they are applied to.
pub mod Errors
pub mod Scope
pub mod Write
pub mod Isolation
pub mod Coverage
pub mod Clauses
pub mod Fragments
pub mod Query
mod Tests

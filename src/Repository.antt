-- ===== src/Repository.antt =====
-- core/orm/base-repository.ts
pub mod Audit
pub mod Grants
pub mod Bypass
pub mod Runner
pub mod Committing
pub mod Aborting
pub mod Removal
pub mod Clause
pub mod Exact
pub mod Reading
pub mod Paged
mod Tests
mod RemovalTests

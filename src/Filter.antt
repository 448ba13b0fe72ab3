-- ===== src/Filter.antt =====
-- core/orm/utils/filter-query-builder.ts
pub mod Syntax
pub mod Prepare
pub mod Clean
pub mod Columns
pub mod Injection
pub mod Query
pub mod Apply
pub mod Binding
pub mod Trees
mod Tests

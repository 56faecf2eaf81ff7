-- ===== src/Orm.antt =====
-- The object-relational mapper (orm): metadata, queries and the builders of SQL text.
pub mod Meta
pub mod Registry
pub mod Values
pub mod Session
pub mod Query
pub mod Builder
pub mod Render
pub mod Selector
pub mod Dialect
pub mod Inserter
mod Tests

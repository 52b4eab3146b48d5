-- ===== src/Dynamic.antt =====
-- sqlx-data-parser/src/dynamic/builder.rs: dynamic SQL. The children hold the pieces in the order in
-- which the source runs them.
pub mod Binder
pub mod Exprs
pub mod Filters
pub mod Searches
pub mod Cursors
pub mod Select
pub mod Query
pub mod Semantics
pub mod Holes
pub mod Grouping
pub mod Placeholders
pub mod Trim
pub mod Build

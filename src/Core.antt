-- ===== src/Core.antt =====
-- sqlx-data-parser/src/core, except parse_sql, which is in Parser.
pub mod Tree
pub mod Count
pub mod Columns
pub mod Insert

-- ===== src/Builder.antt =====
-- sqlx-data-params/src/builder.rs: the root builder, and `HasParams`, by which the builders below
-- reach the parameters of their parent. `expect` on a missing parent panics: `none`.
pub mod States
pub mod Root
pub mod Sorts
pub mod Filters
pub mod Searches
pub mod Pages
pub mod Cursors

-- ===== src/Macros.antt =====
-- The crate sqlx-data-macros: what its procedural macros do with texts and with syntax trees, apart
-- from the code that they emit.
pub mod SynResult
pub mod Aliases
pub mod Source
pub mod Syntax
pub mod Types
pub mod Returns
pub mod Parameters
pub mod Named
pub mod Scopes
pub mod Methods

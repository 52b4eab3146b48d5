-- ===== src/Examples.antt =====
-- Concrete queries and pages, with the theorems applied to them.
mod Sorts
mod Pages
mod Filters
mod Keysets
mod Queries
mod Caches
mod Builders
mod Builds
mod Orders
mod Placeholders
mod Counts
mod Aliases
mod Signatures
mod Scoping
mod Methods

-- ===== src/Migration.antt =====
-- The steps of the schema in agent/crates/tinytop-store/src/migration.rs: v4 to v5 and v5 to v6.
pub mod Schema
pub mod Defs
mod Steps
pub mod Checks
pub mod Laws
pub mod Outcomes
pub mod Complete
mod Tests

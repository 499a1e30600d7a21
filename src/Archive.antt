-- ===== src/Archive.antt =====
-- The queryable archive: agent/crates/tinytop-store/src/archive.rs but its CSV.
pub mod Schema
pub mod Move
mod Steps
pub mod Rows
mod Moves
pub mod Safety
mod Remedy
mod Tests

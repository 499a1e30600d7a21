-- ===== src/Rank.antt =====
-- Which processes a sample keeps: agent/crates/tinytop-collectors/src/process_rank.rs.
pub mod Defs
mod Sorting
mod Slots
pub mod Laws
mod Tests

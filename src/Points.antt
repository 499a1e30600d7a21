-- ===== src/Points.antt =====
-- The source of history points: `resolve_history_point_source_with_poll` of
-- agent/crates/tinytop-store/src/lib.rs.
pub mod Defs
pub mod Spec
pub mod Reads
pub mod Best
pub mod Choice
mod Tests

-- ===== src/Agent.antt =====
-- The agent: agent/crates/tinytop-agent/src/writer.rs and otel.rs.
pub mod Bytes
pub mod Query
pub mod Params
pub mod Export
mod Tests

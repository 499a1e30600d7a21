-- ===== src/Csv.antt =====
-- The cold archive's text of agent/crates/tinytop-store/src/archive.rs: RFC 4180 records, written
-- and parsed. A text is the list of its code points; compression and files are not modelled.
pub mod Defs
pub mod RoundTrip
mod Tests

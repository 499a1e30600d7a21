-- ===== src/Store.antt =====
-- The SQLite history store of agent/crates/tinytop-store/src/lib.rs: its rows, its statements as
-- actions that may fail, and what is built from them.
pub mod Exec
pub mod Triple
pub mod Rows
pub mod SettingsWrite
pub mod Tables
pub mod Detail
mod Tests

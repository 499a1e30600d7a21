-- ===== src/Lib.antt =====
-- TinyTop's history store: a model of the parts of agent/crates/tinytop-store that decide what is
-- kept, moved to the archive and deleted, who may write, which settings are accepted and how a
-- database is migrated; of the choice of the processes that a sample keeps; and of the agent's
-- queries of the history and its loop of the telemetry export.
--
-- The agent samples a machine, writes the samples to SQLite and serves them to a dashboard. Samples
-- are tier L1; maintenance folds minutes (L2) into five minutes (L3) and these into hours (L4), and
-- prunes each tier by the retention ladder of the settings. A disk check raises and clears a pressure
-- state, under which settings may not keep more. Writers take turns at an asynchronous gate.
--
-- Files, and the code that they model (paths below agent/crates/tinytop-store/src):
--   Prelude      shared names; `Prelude.Int` is `i64` arithmetic over unbounded integers with its
--                wrapping and saturation written out; `Prelude.Results` is `StoreError`
--   Retention    retention_ladder.rs: `validate`, `grows_from`, `apply_legacy_aliases`,
--                `to_ladder_config`
--   Tiers        ladder.rs: `Tier`, `fold`, `bucket_start_for`, `is_complete`, `grace_ms`
--   Gate         lib.rs: `WriterGate`; `Gate.System` has the steps of all tasks, `Gate.Drain` those of
--                an executor that polls woken tasks only
--   Csv          archive.rs: `csv_field`, `write_csv_record`, `parse_rfc4180`
--   Settings     thermal_settings.rs, otel_settings.rs, and `DashboardSettings` of lib.rs with
--                `changed_keys`
--   Transfer     settings_transfer.rs: `export_document`, `validate_envelope`, `plan_import`,
--                `apply_import`, `would_delete`, over JSON values (`Transfer.Json`)
--   Store        lib.rs: `get_settings_on`, `write_settings_on`, `put_settings`,
--                `put_settings_document`; the statements on the tier tables (`Store.Tables`) and the
--                prunes of the detail tables (`Store.Detail`)
--   Disk         disk.rs: `apply_disk_measurement`, `free_bytes_from_mounts`
--   Maintenance  maintenance.rs: `promote`, `maintain_with_archive`, `maintain`,
--                `refold_ancestors_for_late_write`
--   Points       lib.rs: `resolve_history_point_source_with_poll`
--   Archive      archive.rs: `move_expired_l4` with `ensure_archive_schema`, `copy_attached_batch`,
--                `delete_attached_batch` and the phases of its errors
--   Migration    migration.rs: `migrate_v4_to_v5`, `migrate_v5_to_v6`, `apply_schema_v6`
--   Agent        agent/crates/tinytop-agent/src/writer.rs and otel.rs: the query strings of the history
--                routes (`Agent.Query`, `Agent.Params`) and the loop of the telemetry export with
--                `OtelSchedule` and `OtelStatus` (`Agent.Export`)
--   Rank         agent/crates/tinytop-collectors/src/process_rank.rs: `rank_processes`
--
-- The database is a record with a field for each table and each key of `history_state`
-- (`Store.Rows`). An action takes it with a list that says which later statements fail, so that a
-- theorem about all such lists holds whichever statements fail (`Store.Exec`). A statement that
-- fails changes nothing, and a transaction that fails restores the database: these are SQLite's
-- promises. `Store.Triple` has the rules by which such theorems are proved. The archive file is a
-- field of the database too: a move attaches it, and its copy and its deletion are two transactions.
-- The tick takes the move as a parameter, which the theorem on L4 rows fills with
-- `move_expired_l4`. The database of a migration is a record of its own (`Migration.Schema`) with
-- what the statements test or change; triggers that a user added are a function on the rows of the
-- two process tables and the markers, for each statement that fires them. The processes that share a database are not interleaved within an operation, so that a
-- plan and the write after it see the same settings.
--
-- Loops: `prune_process_fast_history` and the loop over orphaned commands run on fuel of one more
-- than the rows, since an iteration that goes on deletes a full batch; `promote` runs on one more
-- than the rows of the source tier, since each iteration goes past the oldest row that is left;
-- the clock is assumed to be before the end of the range of `i64`. The moves of L4 into the
-- archive take at most ten batches, as in the source.
--
-- Not modelled: the texts of errors and log lines; times of updates; JSON decoding and encoding
-- of settings, which are given functions; `f64`, which is a parameter (`Float`, `CpuFloat`); reads
-- of the archive and the monthly exports but for the CSV; the migrations before v4 and the pre-image; the
-- collectors but for the ranking of processes; the HTTP service but for the query strings, the
-- pipeline of the telemetry export, whose answers are given, and the dashboard.
pub mod Prelude
pub mod Retention
pub mod Tiers
pub mod Gate
pub mod Csv
pub mod Settings
pub mod Transfer
pub mod Store
pub mod Archive
pub mod Disk
pub mod Maintenance
pub mod Points
pub mod Rank
pub mod Agent
pub mod Migration

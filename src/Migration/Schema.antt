-- ===== src/Migration/Schema.antt =====
-- The process tables, the version and the markers as schemas v4 to v6 have them: `apply_schema_v6`
-- and `migrate_v4_to_v5` of migration.rs. A table that is not there has no columns.
use tinytop.Prelude.{
  ℕ, Bool, true, ◌==◌, Option, List, [], ◌∷◌, ◌++◌, length, if◌then◌else◌, ProcessTables,
  fast_table, minute_table,
}
use tinytop.Prelude.Text.{Text, codes}
use tinytop.Prelude.Int.{ℤ, pos}
use tinytop.Store.Exec.{Exec, pure, update, transaction, ◌>>◌}

-- of a row the columns that are tested or added, and the process
pub record ProcessSample : Type 0 where
  pub captured_at_ms : ℤ
  pub rank : ℤ
  pub pid : ℤ
  pub swap_bytes : Option ℤ
  pub cpu_rank : Option ℤ
  pub memory_rank : Option ℤ

pub record ProcessTable : Type 0 where
  pub columns : List Text
  pub rows : List ProcessSample

-- the `schemaMigrated` markers
pub data SchemaMarker : Type 0 where
  from_v4 : ℤ → SchemaMarker
  -- with the numbers of rows
  from_v5 : ℤ → ℕ → ℕ → SchemaMarker

-- the rows that a trigger may change; the schema and the version it may not
pub record TableRows : Type 0 where
  pub fast_rows : List ProcessSample
  pub minute_rows : List ProcessSample
  pub events : List SchemaMarker

-- the statements of a migration that fire the triggers which a user may have added
pub data Statement : Type 0 where
  updates : ProcessTables → Statement
  adds_marker : Statement

pub record SchemaDb : Type 0 where
  pub user_version : ℤ
  pub process_samples_fast : ProcessTable
  pub process_samples : ProcessTable
  -- that `sensor_dim` and `sensor_samples` are there
  pub sensor_tables : Bool
  pub app_events : List SchemaMarker
  -- what a statement leaves with its triggers, of any of these rows: from the rows before it, and those
  -- that it would leave without them
  pub triggers : Statement → TableRows → TableRows → TableRows

abbrev pub rows_of : SchemaDb → TableRows
rows_of db = record {
  fast_rows = db.process_samples_fast.rows;
  minute_rows = db.process_samples.rows;
  events = db.app_events;
}

abbrev pub with_rows : TableRows → SchemaDb → SchemaDb
with_rows rows db = record db {
  process_samples_fast = record db.process_samples_fast { rows = rows.fast_rows };
  process_samples = record db.process_samples { rows = rows.minute_rows };
  app_events = rows.events;
}

-- a statement with its triggers
unfoldable pub with_triggers : Statement → (SchemaDb → SchemaDb) → SchemaDb → SchemaDb
with_triggers statement f db =
    with_rows (db.triggers statement (rows_of db) (rows_of (f db))) (f db)

unfoldable pub table_of : ProcessTables → SchemaDb → ProcessTable
table_of fast_table db = db.process_samples_fast
table_of minute_table db = db.process_samples

unfoldable pub change_table : ProcessTables → (ProcessTable → ProcessTable) → SchemaDb → SchemaDb
change_table fast_table f db = record db { process_samples_fast = f db.process_samples_fast }
change_table minute_table f db = record db { process_samples = f db.process_samples }

-- `PROCESS_TABLE_V5_COLUMNS`
abbrev pub v5_columns : ProcessTables → List Text
v5_columns fast_table =
    codes "captured_at_ms"
    ∷ codes "rank"
    ∷ codes "pid"
    ∷ codes "command_id"
    ∷ codes "cpu_percent"
    ∷ codes "memory_percent"
    ∷ codes "rss_bytes"
    ∷ codes "parent_pid"
    ∷ codes "started_at_ms"
    ∷ codes "gpu_percent"
    ∷ []
v5_columns minute_table =
    codes "captured_at_ms"
    ∷ codes "rank"
    ∷ codes "pid"
    ∷ codes "cpu_percent"
    ∷ codes "memory_percent"
    ∷ codes "rss_bytes"
    ∷ codes "parent_pid"
    ∷ codes "started_at_ms"
    ∷ codes "command_id"
    ∷ codes "gpu_percent"
    ∷ []

abbrev pub v6_columns : List Text
v6_columns = codes "swap_bytes" ∷ codes "cpu_rank" ∷ codes "memory_rank" ∷ []

-- `CREATE TABLE IF NOT EXISTS`
unfoldable pub create_if_missing : List Text → ProcessTable → ProcessTable
create_if_missing columns table =
    if length table.columns == 0 then record { columns = columns; rows = [] } else table

abbrev pub set_version : ℤ → SchemaDb → SchemaDb
set_version version db = record db { user_version = version }

abbrev pub add_sensor_tables : SchemaDb → SchemaDb
add_sensor_tables db = record db { sensor_tables = true }

-- a group of statements on what is not in the record
abbrev pub elsewhere : SchemaDb → SchemaDb
elsewhere db = db

unfoldable pub create_process_table : ProcessTables → SchemaDb → SchemaDb
unfolding change_table create_if_missing
create_process_table table = change_table table (create_if_missing (v5_columns table ++ v6_columns))

-- `CREATE_SCHEMA_V6_SQL`
abbrev pub schema_v6_groups : List (SchemaDb → SchemaDb)
schema_v6_groups =
    elsewhere
    ∷ elsewhere
    ∷ elsewhere
    ∷ create_process_table fast_table
    ∷ create_process_table minute_table
    ∷ elsewhere
    ∷ add_sensor_tables
    ∷ set_version (pos 6)
    ∷ []

unfoldable pub apply_each : List (SchemaDb → SchemaDb) → Exec SchemaDb (Unit {0})
apply_each [] = pure tt
apply_each (group ∷ groups) = update group >> apply_each groups

unfoldable pub apply_schema_groups : List (SchemaDb → SchemaDb) → Exec SchemaDb (Unit {0})
unfolding apply_each
apply_schema_groups groups = transaction (apply_each groups)

unfoldable pub apply_schema_v6 : Exec SchemaDb (Unit {0})
unfolding apply_schema_groups create_process_table
apply_schema_v6 = apply_schema_groups schema_v6_groups

unfoldable pub add_marker : SchemaMarker → SchemaDb → SchemaDb
unfolding with_triggers
add_marker marker =
    with_triggers adds_marker (λ db. record db { app_events = db.app_events ++ marker ∷ [] })

unfoldable pub migrate_v4_to_v5 : ℤ → Exec SchemaDb (Unit {0})
unfolding add_marker
migrate_v4_to_v5 now_ms = transaction (
    update add_sensor_tables
    >> update (set_version (pos 5))
    >> update (add_marker (from_v4 now_ms)))

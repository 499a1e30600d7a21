-- ===== src/Store/Rows.antt =====
-- The rows that the modelled operations read and write.
use tinytop.Prelude.{ℕ, Bool, true, false, Option, none, List, []}
use tinytop.Prelude.Int.{ℤ, pos}
use tinytop.Prelude.Text.{Text}
use tinytop.Retention.Defs.{DiskPressureState}
use tinytop.Settings.Dashboard.{Document}
use tinytop.Tiers.Defs.{TierBucket, RawSampleRow}

-- the markers that are written to `app_events`
pub data Marker : Type 0 where
  disk_pressure_marker : ℤ → Marker
  disk_recovered_marker : ℤ → Marker

-- the keys of the detail tables
pub record FsSample : Type 0 where
  pub mount : Text
  pub captured_at_ms : ℤ

pub record MountEvent : Type 0 where
  pub mount : Text
  pub captured_at_ms : ℤ
  pub present : Bool

pub record ProcessRow : Type 0 where
  pub captured_at_ms : ℤ
  pub rank : ℕ
  pub command_id : ℕ

-- which of the tables of later versions the database has
pub record OptionalHistoryTables : Type 0 where
  pub gpu_adapters : Bool
  pub gpu_samples : Bool
  pub sensor_dim : Bool
  pub sensor_samples : Bool

-- The file history-archive.sqlite: whether it is there, the objects of its schema, and the rows of
-- its L4 table. `other_objects` are the objects that are not of a tinytop archive.
pub record ArchiveFile (F : Type 0) : Type 0 where
  pub is_there : Bool
  pub user_version : ℤ
  pub has_rollups : Bool
  pub has_newest_index : Bool
  pub has_manifest : Bool
  pub other_objects : ℕ
  pub rows : List (TierBucket F)

abbrev pub no_archive_file : {F : Type 0} → ArchiveFile F
no_archive_file = record {
  is_there = false;
  user_version = pos 0;
  has_rollups = false;
  has_newest_index = false;
  has_manifest = false;
  other_objects = 0;
  rows = [];
}

-- One field for a table, or for a key of `history_state`. Of the detail tables the columns that the
-- statements test are kept, of the GPU and sensor tables the capture times. A table is ordered by
-- its primary key.
pub record Db (F : Type 0) : Type 0 where
  pub optional_tables : OptionalHistoryTables
  pub app_settings : Option Document
  pub app_events : List Marker
  pub pending_detail_rows : Option ℤ
  pub l3_enabled : Option Bool
  pub l4_enabled : Option Bool
  pub l3_folded_until_ms : Option ℤ
  pub l4_folded_until_ms : Option ℤ
  pub disk_pressure : Option DiskPressureState
  pub last_disk_check_ms : Option ℤ
  pub metric_samples : List (RawSampleRow F)
  pub metric_rollups_1m : List (TierBucket F)
  pub metric_rollups_5m : List (TierBucket F)
  pub metric_rollups_1h : List (TierBucket F)
  pub gpu_samples : List ℤ
  pub sensor_samples : List ℤ
  pub fs_samples : List FsSample
  pub fs_mount_events : List MountEvent
  pub process_samples : List ProcessRow
  pub process_samples_fast : List ProcessRow
  pub process_commands : List ℕ
  pub archive_moved_until_ms : Option ℤ
  -- the archive file that a connection may attach
  pub archive_file : ArchiveFile F

-- a new database
abbrev pub empty_db : {F : Type 0} → Db F
empty_db = record {
  optional_tables = record {
    gpu_adapters = true;
    gpu_samples = true;
    sensor_dim = true;
    sensor_samples = true;
  };
  app_settings = none;
  app_events = [];
  pending_detail_rows = none;
  l3_enabled = none;
  l4_enabled = none;
  l3_folded_until_ms = none;
  l4_folded_until_ms = none;
  disk_pressure = none;
  last_disk_check_ms = none;
  metric_samples = [];
  metric_rollups_1m = [];
  metric_rollups_5m = [];
  metric_rollups_1h = [];
  gpu_samples = [];
  sensor_samples = [];
  fs_samples = [];
  fs_mount_events = [];
  process_samples = [];
  process_samples_fast = [];
  process_commands = [];
  archive_moved_until_ms = none;
  archive_file = no_archive_file;
}

-- ===== src/Settings/Dashboard.antt =====
-- The dashboard settings of agent/crates/tinytop-store/src/lib.rs: their defaults, validation and
-- legacy mirrors. A settings document is what serde makes of it.
use tinytop.Prelude.{
  ◌*◌, Bool, true, false, not, Option, none, some, [], ◌∷◌, String, if◌then◌else◌, Result, ok,
  out_of_order, refuse_if, ◌>>◌, ◌>>=◌,
}
use tinytop.Prelude.Int.{ℤ, pos, leb_ℤ, saturating_mul}
use tinytop.Prelude.Text.{Text, codes}
use tinytop.Retention.Defs.{
  RetentionLadder, default_ladder, validate, validate_range, apply_legacy_aliases, from_legacy,
}
use tinytop.Settings.Otel.{OtelSettings, default_otel, validate_otel, validate_one_of}
use tinytop.Settings.Thermal.{ThermalSettings, default_thermal, validate_thermal}

pub record DashboardThresholds : Type 0 where
  pub cpu_warn : ℤ
  pub cpu_critical : ℤ
  pub memory_warn : ℤ
  pub memory_critical : ℤ
  pub disk_warn : ℤ
  pub disk_critical : ℤ
  pub load_warn : ℤ
  pub load_critical : ℤ
  pub pressure_warn : ℤ
  pub pressure_critical : ℤ

pub record DashboardSections : Type 0 where
  pub overview : Bool
  pub history : Bool
  pub filesystem : Bool
  pub pressure : Bool
  pub processes : Bool

pub record DashboardSettings : Type 0 where
  pub default_theme : Text
  pub default_graph_mode : Text
  pub poll_interval_ms : ℤ
  pub default_history_window : Text
  pub retention_hours : ℤ
  pub rollup_retention_days : ℤ
  pub retention_ladder : RetentionLadder
  pub otel : OtelSettings
  pub thermal : ThermalSettings
  pub target_database_bytes : ℤ
  pub top_process_count : ℤ
  pub redaction_default : Bool
  pub thresholds : DashboardThresholds
  pub enabled_sections : DashboardSections

abbrev pub default_thresholds : DashboardThresholds
default_thresholds = record {
  cpu_warn = pos 80;
  cpu_critical = pos 95;
  memory_warn = pos 85;
  memory_critical = pos 95;
  disk_warn = pos 85;
  disk_critical = pos 95;
  load_warn = pos 80;
  load_critical = pos 100;
  pressure_warn = pos 10;
  pressure_critical = pos 25;
}

abbrev pub default_sections : DashboardSections
default_sections = record {
  overview = true;
  history = true;
  filesystem = true;
  pressure = true;
  processes = true;
}

-- `DashboardSettings::default()`
abbrev pub default_settings : DashboardSettings
default_settings = record {
  default_theme = codes "midnight";
  default_graph_mode = codes "line";
  poll_interval_ms = pos 1_500;
  default_history_window = codes "live";
  retention_hours = pos 72;
  rollup_retention_days = pos 30;
  retention_ladder = default_ladder;
  otel = default_otel;
  thermal = default_thermal;
  target_database_bytes = pos (128 * 1024 * 1024);
  top_process_count = pos 12;
  redaction_default = false;
  thresholds = default_thresholds;
  enabled_sections = default_sections;
}

unfoldable pub validate_threshold_pair : String → ℤ → ℤ → Result (Unit {0})
validate_threshold_pair field warn critical =
    refuse_if (not (leb_ℤ warn critical)) (out_of_order field field)

module _ (self : DashboardSettings) where
  -- the first six checks of `validate`
  unfoldable pub validate_choices : Result (Unit {0})
  unfolding validate_one_of validate_range
  validate_choices = do
    validate_one_of "defaultTheme" self.default_theme
        (codes "midnight" ∷ codes "matrix" ∷ codes "aurora" ∷ codes "solar" ∷ codes "ember" ∷ [])
    validate_one_of "defaultGraphMode" self.default_graph_mode
        (codes "line" ∷ codes "area" ∷ codes "bar" ∷ codes "heatmap" ∷ codes "treemap" ∷ [])
    validate_one_of "defaultHistoryWindow" self.default_history_window (
        codes "live"
        ∷ codes "15m"
        ∷ codes "1h"
        ∷ codes "6h"
        ∷ codes "24h"
        ∷ codes "7d"
        ∷ codes "30d"
        ∷ codes "90d"
        ∷ codes "1y"
        ∷ codes "all"
        ∷ [])
    validate_range "pollIntervalMs" self.poll_interval_ms (pos 250) (pos 60_000)
    validate_range "targetDatabaseBytes" self.target_database_bytes (pos 1_048_576)
        (pos 10_737_418_240)
    validate_range "topProcessCount" self.top_process_count (pos 1) (pos 50)

-- the ranges of the thresholds
unfoldable pub validate_threshold_ranges : DashboardThresholds → Result (Unit {0})
unfolding validate_range
validate_threshold_ranges t = do
  validate_range "thresholds.cpuWarn" t.cpu_warn (pos 0) (pos 100)
  validate_range "thresholds.cpuCritical" t.cpu_critical (pos 0) (pos 100)
  validate_range "thresholds.memoryWarn" t.memory_warn (pos 0) (pos 100)
  validate_range "thresholds.memoryCritical" t.memory_critical (pos 0) (pos 100)
  validate_range "thresholds.diskWarn" t.disk_warn (pos 0) (pos 100)
  validate_range "thresholds.diskCritical" t.disk_critical (pos 0) (pos 100)
  validate_range "thresholds.loadWarn" t.load_warn (pos 0) (pos 100)
  validate_range "thresholds.loadCritical" t.load_critical (pos 0) (pos 100)
  validate_range "thresholds.pressureWarn" t.pressure_warn (pos 0) (pos 100)
  validate_range "thresholds.pressureCritical" t.pressure_critical (pos 0) (pos 100)

-- a warning comes no later than the critical mark
unfoldable pub validate_threshold_pairs : DashboardThresholds → Result (Unit {0})
unfolding validate_threshold_pair
validate_threshold_pairs t = do
  validate_threshold_pair "thresholds.cpu" t.cpu_warn t.cpu_critical
  validate_threshold_pair "thresholds.memory" t.memory_warn t.memory_critical
  validate_threshold_pair "thresholds.disk" t.disk_warn t.disk_critical
  validate_threshold_pair "thresholds.load" t.load_warn t.load_critical
  validate_threshold_pair "thresholds.pressure" t.pressure_warn t.pressure_critical

-- `DashboardSettings::validate`
unfoldable pub validate_settings : DashboardSettings → Result (Unit {0})
validate_settings self = do
  validate_choices self
  validate_threshold_ranges self.thresholds
  validate_threshold_pairs self.thresholds
  validate self.retention_ladder none none
  validate_otel self.otel
  validate_thermal self.thermal

unfoldable pub normalize_legacy_mirrors : DashboardSettings → DashboardSettings
normalize_legacy_mirrors self = record self {
  retention_hours = saturating_mul self.retention_ladder.l1.keep_days 24;
  rollup_retention_days = self.retention_ladder.l2.keep_days;
}

-- A JSON document of settings: which optional blocks it has, and what serde decodes from it, with
-- the defaults of absent blocks filled in.
pub record Document : Type 0 where
  pub has_retention_ladder : Bool
  pub has_otel : Bool
  pub has_thermal : Bool
  pub decoded : Result DashboardSettings

-- the ladder of a document that has none
unfoldable pub legacy_ladder : DashboardSettings → Option DashboardSettings → RetentionLadder
legacy_ladder s none = from_legacy s.retention_hours s.rollup_retention_days
legacy_ladder s (some persisted) =
    apply_legacy_aliases persisted.retention_ladder s.retention_hours s.rollup_retention_days

unfoldable pub persisted_otel : Option DashboardSettings → OtelSettings
persisted_otel none = default_otel
persisted_otel (some persisted) = persisted.otel

unfoldable pub persisted_thermal : Option DashboardSettings → ThermalSettings
persisted_thermal none = default_thermal
persisted_thermal (some persisted) = persisted.thermal

unfoldable pub from_document : Document → Option DashboardSettings → Result DashboardSettings
unfolding legacy_ladder persisted_otel persisted_thermal
from_document document persisted = do
  s ← document.decoded
  ok (record s {
    retention_ladder =
        if document.has_retention_ladder then s.retention_ladder else legacy_ladder s persisted;
    otel = if document.has_otel then s.otel else persisted_otel persisted;
    thermal = if document.has_thermal then s.thermal else persisted_thermal persisted;
  })

-- what `serde_json::to_string` makes of settings: every block is there
unfoldable pub document_of : DashboardSettings → Document
document_of s = record {
  has_retention_ladder = true;
  has_otel = true;
  has_thermal = true;
  decoded = ok s;
}

-- ===== src/Retention/Defs.antt =====
-- The types and functions of retention_ladder.rs, and `LadderConfig` of maintenance.rs.
use Prim.Native.Char.{code}
use tinytop.Prelude.{
  ℕ, ◌*◌, String, Bool, true, false, not, ◌&&◌, ◌||◌, Option, none, some, ◌==◌, if◌then◌else◌,
  Result, ok, out_of_range, below_minimum, out_of_order, needs, not_absolute, disk_pressure,
  refuse_if, ◌>>◌,
}
use tinytop.Prelude.Int.{
  ℤ, pos, ltb_ℤ, leb_ℤ, eqb_ℤ, max_ℤ, div_euclid, saturating_add, saturating_mul,
}

-- `DAY_MS` and `MIN_FREE_BYTES`
abbrev pub day_ms : ℕ
day_ms = 86_400_000

abbrev pub min_free_floor : ℕ
min_free_floor = 256 * 1024 * 1024

pub record TierKeep : Type 0 where
  pub keep_days : ℤ

pub record ToggledTierKeep : Type 0 where
  pub enabled : Bool
  pub keep_days : ℤ

pub record ArchiveSettings : Type 0 where
  pub queryable : Bool
  pub cold : Bool
  pub cold_after_months : ℤ
  pub directory : String

pub record DiskCheckSettings : Type 0 where
  pub interval_minutes : ℤ
  pub min_free_bytes : ℤ

pub record DiskPressureState : Type 0 where
  pub active : Bool
  pub since_ms : Option ℤ
  pub free_bytes : ℤ
  pub min_free_bytes : ℤ

-- `DiskPressureState::default()`
abbrev pub no_pressure : DiskPressureState
no_pressure = record { active = false; since_ms = none; free_bytes = pos 0; min_free_bytes = pos 0 }

pub record RetentionLadder : Type 0 where
  pub l1 : TierKeep
  pub l2 : TierKeep
  pub l3 : ToggledTierKeep
  pub l4 : ToggledTierKeep
  pub detail_interval_sec : ℤ
  pub process_fast_keep_hours : ℤ
  pub archive : ArchiveSettings
  pub disk_check : DiskCheckSettings

-- `RetentionLadder::default()`
abbrev pub default_ladder : RetentionLadder
default_ladder = record {
  l1 = record { keep_days = pos 3 };
  l2 = record { keep_days = pos 30 };
  l3 = record { enabled = true; keep_days = pos 90 };
  l4 = record { enabled = true; keep_days = pos 730 };
  detail_interval_sec = pos 60;
  process_fast_keep_hours = pos 24;
  archive = record { queryable = false; cold = false; cold_after_months = pos 12; directory = "" };
  disk_check = record { interval_minutes = pos 60; min_free_bytes = pos (5 * 1024 * 1024 * 1024) };
}

unfoldable pub validate_range : String → ℤ → ℤ → ℤ → Result (Unit {0})
validate_range field value lo hi =
    refuse_if (not (leb_ℤ lo value && leb_ℤ value hi)) (out_of_range field lo hi)

-- `Path::is_absolute` on Unix
pub is_absolute : String → Bool
is_absolute String.[] = false
is_absolute (String.◌∷◌ c s) = code c == b'/'

pub is_empty : String → Bool
is_empty String.[] = true
is_empty (String.◌∷◌ c s) = false

module _ (self : RetentionLadder) where
  -- the first nine checks of `validate`
  unfoldable pub validate_ranges : Result (Unit {0})
  unfolding validate_range
  validate_ranges = do
    validate_range "retentionLadder.l1.keepDays" self.l1.keep_days (pos 3) (pos 3650)
    validate_range "retentionLadder.l2.keepDays" self.l2.keep_days (pos 7) (pos 3650)
    validate_range "retentionLadder.l3.keepDays" self.l3.keep_days (pos 0) (pos 3650)
    validate_range "retentionLadder.l4.keepDays" self.l4.keep_days (pos 0) (pos 36500)
    validate_range "retentionLadder.detailIntervalSec" self.detail_interval_sec (pos 15) (pos 3600)
    validate_range "retentionLadder.processFastKeepHours" self.process_fast_keep_hours (pos 1)
        (pos 72)
    validate_range "retentionLadder.archive.coldAfterMonths" self.archive.cold_after_months (pos 1)
        (pos 120)
    validate_range "retentionLadder.diskCheck.intervalMinutes" self.disk_check.interval_minutes
        (pos 5) (pos 1440)
    refuse_if (ltb_ℤ self.disk_check.min_free_bytes (pos min_free_floor))
        (below_minimum "retentionLadder.diskCheck.minFreeBytes")

  -- the days that L4 must keep at least: those of the tier that it is folded from
  unfoldable pub required_l4_days : ℤ
  required_l4_days = if self.l3.enabled then self.l3.keep_days else self.l2.keep_days

  -- a coarser tier keeps at least as long as the tier that feeds it
  unfoldable pub validate_order : Result (Unit {0})
  unfolding required_l4_days
  validate_order = do
    refuse_if (self.l3.enabled && ltb_ℤ self.l3.keep_days self.l2.keep_days)
        (out_of_order "retentionLadder.l3.keepDays" "retentionLadder.l2.keepDays")
    refuse_if
        (self.l4.enabled
          && not (eqb_ℤ self.l4.keep_days (pos 0))
          && ltb_ℤ self.l4.keep_days required_l4_days)
        (out_of_order "retentionLadder.l4.keepDays" (
          if self.l3.enabled then "retentionLadder.l3.keepDays" else "retentionLadder.l2.keepDays"))

  unfoldable pub validate_archive : Result (Unit {0})
  unfolding is_empty is_absolute
  validate_archive = do
    refuse_if (self.archive.cold && not self.archive.queryable)
        (needs "retentionLadder.archive.cold" "retentionLadder.archive.queryable")
    refuse_if (not (is_empty self.archive.directory) && not (is_absolute self.archive.directory))
        (not_absolute "retentionLadder.archive.directory")

-- whether one tier's horizon grew; where `zero_is_forever`, 0 days stand for no end
unfoldable pub enabled_horizon_grew : Bool → ℤ → Bool → ℤ → Bool → Bool
enabled_horizon_grew enabled keep_days previous_enabled previous_keep_days zero_is_forever =
    if not enabled
    then false
    else if not previous_enabled
    then true
    else if zero_is_forever
    then eqb_ℤ keep_days (pos 0) && not (eqb_ℤ previous_keep_days (pos 0))
      || not (eqb_ℤ keep_days (pos 0))
        && not (eqb_ℤ previous_keep_days (pos 0))
        && ltb_ℤ previous_keep_days keep_days
    else ltb_ℤ previous_keep_days keep_days

unfoldable pub grows_from : RetentionLadder → RetentionLadder → Bool
unfolding enabled_horizon_grew
grows_from self previous =
    ltb_ℤ previous.l1.keep_days self.l1.keep_days
    || ltb_ℤ previous.l2.keep_days self.l2.keep_days
    || enabled_horizon_grew self.l3.enabled self.l3.keep_days previous.l3.enabled
        previous.l3.keep_days false
    || enabled_horizon_grew self.l4.enabled self.l4.keep_days previous.l4.enabled
        previous.l4.keep_days true
    || ltb_ℤ previous.process_fast_keep_hours self.process_fast_keep_hours
    || (self.archive.queryable && not previous.archive.queryable)
    || (self.archive.cold && not previous.archive.cold)

-- `previous.is_some_and(|previous| self.grows_from(previous))`
unfoldable pub grows_from_previous : RetentionLadder → Option RetentionLadder → Bool
grows_from_previous self none = false
grows_from_previous self (some previous) = grows_from self previous

-- the last check of `validate`
unfoldable pub validate_growth :
    RetentionLadder → Option DiskPressureState → Option RetentionLadder → Result (Unit {0})
unfolding grows_from_previous
validate_growth self none previous = ok tt
validate_growth self (some pressure) previous =
    refuse_if (pressure.active && grows_from_previous self previous)
      (disk_pressure pressure.free_bytes pressure.min_free_bytes)

unfoldable pub validate :
    RetentionLadder → Option DiskPressureState → Option RetentionLadder → Result (Unit {0})
validate self pressure previous = do
  validate_ranges self
  validate_order self
  validate_archive self
  validate_growth self pressure previous

unfoldable pub apply_legacy_aliases : RetentionLadder → ℤ → ℤ → RetentionLadder
apply_legacy_aliases self retention_hours rollup_retention_days =
    let l1_days = max_ℤ (div_euclid (saturating_add retention_hours (pos 23)) 24) (pos 3) in
    let l2_days = max_ℤ rollup_retention_days (pos 7) in
    let l3_days = if self.l3.enabled then max_ℤ self.l3.keep_days l2_days else self.l3.keep_days in
    let required = if self.l3.enabled then l3_days else l2_days in
    let l4_days =
      if self.l4.enabled && not (eqb_ℤ self.l4.keep_days (pos 0))
      then max_ℤ self.l4.keep_days required
      else self.l4.keep_days in
    record self {
      l1 = record { keep_days = l1_days };
      l2 = record { keep_days = l2_days };
      l3 = record { enabled = self.l3.enabled; keep_days = l3_days };
      l4 = record { enabled = self.l4.enabled; keep_days = l4_days };
    }

unfoldable pub from_legacy : ℤ → ℤ → RetentionLadder
from_legacy = apply_legacy_aliases default_ladder

pub record LadderConfig : Type 0 where
  pub l1_keep_ms : ℤ
  pub l2_keep_ms : ℤ
  pub l3 : Option ℤ
  pub l4 : Option ℤ
  pub detail_interval_ms : ℤ
  pub process_fast_keep_ms : ℤ
  pub poll_interval_ms : ℤ

-- `enabled.then(|| keep_days.saturating_mul(DAY_MS))`
unfoldable pub enabled_keep_ms : ToggledTierKeep → Option ℤ
enabled_keep_ms tier = if tier.enabled then some (saturating_mul tier.keep_days day_ms) else none

unfoldable pub to_ladder_config : RetentionLadder → ℤ → LadderConfig
unfolding enabled_keep_ms
to_ladder_config self poll_interval_ms = record {
  l1_keep_ms = saturating_mul self.l1.keep_days day_ms;
  l2_keep_ms = saturating_mul self.l2.keep_days day_ms;
  l3 = enabled_keep_ms self.l3;
  l4 = enabled_keep_ms self.l4;
  detail_interval_ms = saturating_mul self.detail_interval_sec 1_000;
  process_fast_keep_ms = saturating_mul self.process_fast_keep_hours 3_600_000;
  poll_interval_ms = poll_interval_ms;
}

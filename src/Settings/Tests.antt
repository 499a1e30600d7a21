-- ===== src/Settings/Tests.antt =====
-- The thermal settings with two chips, and the default settings with another count.
use tinytop.Prelude.{◌≡◌, ◌↔◌, ok, ◌≤◌, length, [], ◌∷◌}
use tinytop.Prelude.Int.{pos}
use tinytop.Settings.Dashboard.{DashboardSettings, default_settings}
use tinytop.Settings.Thermal.{
  ThermalSettings, default_thermal, validate_thermal, GoodChips, validate_thermal-ok,
}

abbrev renamed : DashboardSettings
renamed = record default_settings { top_process_count = pos 5 }

abbrev two_chips : ThermalSettings
two_chips = record default_thermal { extra_chips = (98 ∷ []) ∷ (97 ∷ 49 ∷ []) ∷ [] }

validate_thermal-ok_example :
    (validate_thermal two_chips ≡ ok tt)
    ↔ ((length two_chips.extra_chips ≤ 16) × GoodChips [] two_chips.extra_chips)
validate_thermal-ok_example = validate_thermal-ok two_chips

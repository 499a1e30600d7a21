-- ===== src/Settings/Defaults.antt =====
-- The default settings of lib.rs, as they are saved.
use tinytop.Prelude.{◌≡◌, refl, ok}
use tinytop.Settings.Dashboard.{
  DashboardSettings, default_settings, normalize_legacy_mirrors, validate_settings,
}

abbrev pub saved : DashboardSettings
saved = normalize_legacy_mirrors default_settings

-- They pass every check.
pub default_settings-valid : validate_settings saved ≡ ok tt
unfolding validate_settings normalize_legacy_mirrors tinytop.Settings.Dashboard.validate_choices
    tinytop.Prelude.Text.contains tinytop.Settings.Dashboard.validate_threshold_ranges
    tinytop.Settings.Dashboard.validate_threshold_pairs tinytop.Retention.Defs.validate
    tinytop.Retention.Defs.validate_ranges tinytop.Retention.Defs.validate_order
    tinytop.Retention.Defs.validate_archive tinytop.Retention.Defs.validate_growth
    tinytop.Settings.Otel.validate_otel tinytop.Settings.Otel.valid_http_endpoint
    tinytop.Prelude.Text.is_whitespace tinytop.Prelude.Text.is_control
    tinytop.Prelude.Text.strip_prefix tinytop.Prelude.Text.before_first
    tinytop.Prelude.Int.div_euclid tinytop.Prelude.Int.max_ℤ tinytop.Prelude.Int.saturate
    tinytop.Prelude.Int.scale tinytop.Prelude.Int.◌+ℤ◌ tinytop.Prelude.Text.before_last?
    tinytop.Prelude.Text.byte_length tinytop.Prelude.Text.is_digit tinytop.Prelude.Text.is_lowercase
    tinytop.Prelude.Text.is_uppercase tinytop.Prelude.Text.split tinytop.Prelude.Text.text_eq
    tinytop.Prelude.Text.utf8_width tinytop.Retention.Defs.apply_legacy_aliases
    tinytop.Retention.Defs.enabled_horizon_grew tinytop.Retention.Defs.from_legacy
    tinytop.Retention.Defs.grows_from tinytop.Retention.Defs.grows_from_previous
    tinytop.Retention.Defs.required_l4_days tinytop.Retention.Defs.validate_range
    tinytop.Settings.Dashboard.validate_threshold_pair tinytop.Settings.Otel.after_scheme
    tinytop.Settings.Otel.is_nil tinytop.Settings.Otel.malformed_attribute
    tinytop.Settings.Otel.malformed_service_name
    tinytop.Settings.Otel.secret_shaped_resource_attribute_key tinytop.Settings.Otel.valid_authority
    tinytop.Settings.Otel.valid_disabled_metric_name tinytop.Settings.Otel.valid_dotted_name
    tinytop.Settings.Otel.valid_headers_env_var tinytop.Settings.Otel.valid_host
    tinytop.Settings.Otel.valid_resource_attribute_key tinytop.Settings.Otel.validate_metrics
    tinytop.Settings.Otel.validate_one_of tinytop.Settings.Otel.validate_otel_export
    tinytop.Settings.Otel.validate_otel_names tinytop.Settings.Thermal.malformed_chip
    tinytop.Settings.Thermal.validate_chips tinytop.Settings.Thermal.validate_thermal
default_settings-valid = refl

-- Their mirrors are those of their ladder.
pub default_settings-mirrors : saved ≡ default_settings
unfolding normalize_legacy_mirrors tinytop.Prelude.Int.saturate tinytop.Prelude.Int.scale
default_settings-mirrors = refl

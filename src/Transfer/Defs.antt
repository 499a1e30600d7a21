-- ===== src/Transfer/Defs.antt =====
-- The operations of settings_transfer.rs: the checks of an envelope, the plan of an import, which only
-- reads, and the import itself. What serde makes of values is given: `decode` is `from_value` of
-- settings, `encode` is `to_value`.
use tinytop.Prelude.{
  ℕ, Bool, true, false, not, Option, none, some, List, [], ◌∷◌, ◌++◌, map, keep_if, is_some,
  if◌then◌else◌, ltb, ◌==◌, String, Reason, unknown_key, required_object, required_integer, too_new,
  too_old,
}
use tinytop.Prelude.Int.{ℤ, pos, ltb_ℤ}
use tinytop.Prelude.Text.{Text, codes, contains}
use tinytop.Prelude.Sort.{sort_by}
use tinytop.Settings.Dashboard.{DashboardSettings}
use tinytop.Transfer.Json.{Json, Members, get, keys, as_object, as_i64}

abbrev pub max_config_version : ℤ
max_config_version = pos 1

abbrev pub envelope_keys : List Text
envelope_keys =
    codes "tinytopConfigVersion"
    ∷ codes "exportedAtMs"
    ∷ codes "agentVersion"
    ∷ codes "settings"
    ∷ []

pub record SettingsDocument : Type 0 where
  pub tinytop_config_version : ℤ
  pub exported_at_ms : ℤ
  pub agent_version : Text
  pub settings : DashboardSettings

unfoldable pub export_document : DashboardSettings → ℤ → Text → SettingsDocument
export_document settings now_ms agent_version = record {
  tinytop_config_version = max_config_version;
  exported_at_ms = now_ms;
  agent_version = agent_version;
  settings = settings;
}

-- the order of texts, that of their UTF-8 bytes too
unfoldable pub text_le : Text → Text → Bool
text_le [] t = true
text_le (c ∷ s) [] = false
text_le (c ∷ s) (d ∷ t) =
    let rest = text_le s t in if ltb c d then true else if c == d then rest else false

-- the part of the message on an unknown key that does not come first in all of them
abbrev unknown_key_message : Text → Text
unknown_key_message key =
    key ++ codes "\"; allowed keys: tinytopConfigVersion, exportedAtMs, agentVersion, settings"

-- the unknown keys of an envelope, in the order of their messages
unfoldable pub unknown_keys : Members → List Reason
unfolding keys contains sort_by text_le
unknown_keys envelope = map unknown_key (
    sort_by (λ a b. text_le (unknown_key_message a) (unknown_key_message b))
      (keep_if (λ key. not (contains envelope_keys key)) (keys envelope)))

unfoldable pub version_errors : Option ℤ → List Reason
version_errors none = required_integer "tinytopConfigVersion" ∷ []
version_errors (some version) =
    if ltb_ℤ max_config_version version
    then too_new version ∷ []
    else if ltb_ℤ version (pos 1)
    then too_old version ∷ []
    else []

-- `and_then(as_i64)`
unfoldable pub integer_at : Option Json → Option ℤ
unfolding as_i64
integer_at none = none
integer_at (some value) = as_i64 value

-- `is_some_and(is_object)`
unfoldable pub is_object_at : Option Json → Bool
unfolding as_object
is_object_at none = false
is_object_at (some value) = is_some (as_object value)

unfoldable pub settings_errors : Option Json → List Reason
unfolding is_object_at
settings_errors value = if is_object_at value then [] else required_object "settings" ∷ []

unfoldable pub validate_envelope : Members → List Reason
unfolding unknown_keys version_errors integer_at settings_errors get
validate_envelope envelope =
    unknown_keys envelope
    ++ (version_errors (integer_at (get envelope (codes "tinytopConfigVersion")))
        ++ settings_errors (get envelope (codes "settings")))

pub record WouldDelete : Type 0 where
  pub l1_rows : ℕ
  pub l2_buckets : ℕ
  pub l3_buckets : ℕ
  pub l4_buckets : ℕ
  pub process_fast_rows : ℕ
  pub gpu_sample_rows : ℕ
  pub sensor_sample_rows : ℕ

-- `WouldDelete::default()`
abbrev pub nothing_deleted : WouldDelete
nothing_deleted = record {
  l1_rows = 0;
  l2_buckets = 0;
  l3_buckets = 0;
  l4_buckets = 0;
  process_fast_rows = 0;
  gpu_sample_rows = 0;
  sensor_sample_rows = 0;
}

pub record ImportPlan : Type 0 where
  pub valid : Bool
  pub errors : List Reason
  pub warnings : List Text
  pub changed_keys : List String
  pub would_delete : WouldDelete
  pub candidate : Option DashboardSettings

pub record ImportOutcome : Type 0 where
  pub settings : DashboardSettings
  pub changed_keys : List String
  pub would_delete : WouldDelete

unfoldable pub invalid_plan : List Reason → ImportPlan
invalid_plan errors = record {
  valid = false;
  errors = errors;
  warnings = [];
  changed_keys = [];
  would_delete = nothing_deleted;
  candidate = none;
}

-- `{path}.{key}`
unfoldable pub key_path : Text → Text → Text
key_path path key = path ++ (b'.' ∷ key)

unfoldable pub unknown_setting : Text → Text
unfolding contains
unknown_setting path =
    if contains (codes "settings.retentionLadder.snapshotJsonKeepMinutes" ∷ []) path
    then codes "snapshotJsonKeepMinutes is no longer used and was ignored"
    else path ++ codes ": unknown key ignored"

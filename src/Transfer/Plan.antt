-- ===== src/Transfer/Plan.antt =====
-- `would_delete`, `plan_import` and `apply_import` of settings_transfer.rs, and the counts of lib.rs.
use tinytop.Prelude.{
  ℕ, Bool, true, false, Option, none, some, List, [], ◌∷◌, ◌++◌, unwrap_or, is_some, if◌then◌else◌,
  StoreError, Reason, Result, ok, err, validation, validations, undecodable, required_object,
}
use tinytop.Prelude.Int.{ℤ, pos, ltb_ℤ, saturating_sub}
use tinytop.Prelude.Text.{Text, codes}
use tinytop.Prelude.Sort.{sort_by}
use tinytop.Retention.Defs.{to_ladder_config, DiskPressureState, no_pressure, validate}
use tinytop.Settings.Dashboard.{
  DashboardSettings, Document, from_document, validate_settings, normalize_legacy_mirrors,
}
use tinytop.Settings.Changes
use tinytop.Tiers.Defs.{Tier, l1, l2, l3, l4}
use tinytop.Store.Exec.{Exec, pure, raise, lift, query, ◌>>=◌}
use tinytop.Store.Rows.{Db}
use tinytop.Store.Tables.{count_where, ends_by, table}
use tinytop.Store.SettingsWrite.{get_settings_on, put_settings_document}
use tinytop.Transfer.Json.{Json, Members, no_members, member, object, get, get_in, as_object}
use tinytop.Transfer.Defs.{
  WouldDelete, ImportPlan, ImportOutcome, invalid_plan, validate_envelope, key_path,
  unknown_setting, text_le,
}

unfoldable mutual
  unfolding as_object get key_path unknown_setting

  -- the keys of the settings that the saved form of the candidate does not have
  pub collect_unknown_settings_keys : Json → Json → Text → List Text
  collect_unknown_settings_keys (object input) expected path = elim (as_object expected) [
    | none ↦ []
    | some members ↦ collect_members input members path
  ]
  collect_unknown_settings_keys other expected path = []

  pub collect_members : Members → Members → Text → List Text
  collect_members no_members expected path = []
  collect_members (member key value rest) expected path =
      elim (get expected key) [
        | none ↦ unknown_setting (key_path path key) ∷ []
        | some expected_value ↦
            collect_unknown_settings_keys value expected_value (key_path path key)
      ]
      ++ collect_members rest expected path

-- what the text of an error says; the checks give validation errors only
unfoldable pub shown : StoreError → Reason
shown (validation reason) = reason
shown other = undecodable

-- `if let Err(error) = check { errors.push(error.to_string()) }`
unfoldable pub errors_of : Result (Unit {0}) → List Reason
unfolding shown
errors_of (ok done) = []
errors_of (err e) = shown e ∷ []

unfoldable pub candidate_errors :
    DashboardSettings → DiskPressureState → DashboardSettings → List Reason
unfolding errors_of
candidate_errors candidate pressure previous =
    errors_of (validate_settings candidate)
    ++ errors_of
        (validate candidate.retention_ladder (some pressure) (some previous.retention_ladder))

-- the settings part of a document, as `from_document` reads it
unfoldable pub document_from : (Json → Result DashboardSettings) → Json → Document
unfolding get_in
document_from decode value = record {
  has_retention_ladder = is_some (get_in value (codes "retentionLadder"));
  has_otel = is_some (get_in value (codes "otel"));
  has_thermal = is_some (get_in value (codes "thermal"));
  decoded = decode value;
}

-- the age of a tier that does not keep for ever: `filter(|keep_ms| *keep_ms > 0)`
unfoldable pub finite : Option ℤ → Option ℤ
finite none = none
finite (some keep_ms) = if ltb_ℤ (pos 0) keep_ms then some keep_ms else none

module _ {F : Type 0} where
  unfoldable pub count_rows_older_than : Tier → ℤ → Exec (Db F) ℕ
  unfolding count_where ends_by table
  count_rows_older_than l1 cutoff_ms =
      query (λ db. count_where (λ r. ltb_ℤ r.captured_at_ms cutoff_ms) db.metric_samples)
  count_rows_older_than tier cutoff_ms =
      query (λ db. count_where (ends_by tier cutoff_ms) (table tier db))

  unfoldable pub count_process_fast_rows_older_than : ℤ → Exec (Db F) ℕ
  unfolding count_where
  count_process_fast_rows_older_than cutoff_ms =
      query (λ db. count_where (λ r. ltb_ℤ r.captured_at_ms cutoff_ms) db.process_samples_fast)

  unfoldable pub count_gpu_rows_older_than : ℤ → Exec (Db F) ℕ
  unfolding count_where
  count_gpu_rows_older_than cutoff_ms =
      query (λ db. count_where (λ t. ltb_ℤ t cutoff_ms) db.gpu_samples)

  unfoldable pub count_sensor_rows_older_than : ℤ → Exec (Db F) ℕ
  unfolding count_where
  count_sensor_rows_older_than cutoff_ms =
      query (λ db. count_where (λ t. ltb_ℤ t cutoff_ms) db.sensor_samples)

  -- the count of a tier that has an age
  unfoldable pub count_if_kept : Tier → ℤ → Option ℤ → Exec (Db F) ℕ
  unfolding count_rows_older_than
  count_if_kept tier now_ms none = pure 0
  count_if_kept tier now_ms (some keep_ms) =
      count_rows_older_than tier (saturating_sub now_ms keep_ms)

  -- the count of a table that the database has
  unfoldable pub count_if_there : Bool → Exec (Db F) ℕ → Exec (Db F) ℕ
  count_if_there true count = count
  count_if_there false count = pure 0

  unfoldable pub would_delete : DashboardSettings → ℤ → Exec (Db F) WouldDelete
  unfolding count_rows_older_than count_if_kept finite count_process_fast_rows_older_than
      count_if_there count_gpu_rows_older_than count_sensor_rows_older_than
  would_delete candidate now_ms = do
    let config = to_ladder_config candidate.retention_ladder candidate.poll_interval_ms
    l1_rows ← count_rows_older_than l1 (saturating_sub now_ms config.l1_keep_ms)
    l2_buckets ← count_rows_older_than l2 (saturating_sub now_ms config.l2_keep_ms)
    l3_buckets ← count_if_kept l3 now_ms config.l3
    l4_buckets ← count_if_kept l4 now_ms (finite config.l4)
    fast ← count_process_fast_rows_older_than (saturating_sub now_ms config.process_fast_keep_ms)
    tables ← query (λ db. db.optional_tables)
    gpu ←
        count_if_there tables.gpu_samples
          (count_gpu_rows_older_than (saturating_sub now_ms config.l1_keep_ms))
    sensors ←
        count_if_there tables.sensor_samples
          (count_sensor_rows_older_than (saturating_sub now_ms config.l1_keep_ms))
    pure record {
      l1_rows = l1_rows;
      l2_buckets = l2_buckets;
      l3_buckets = l3_buckets;
      l4_buckets = l4_buckets;
      process_fast_rows = fast;
      gpu_sample_rows = gpu;
      sensor_sample_rows = sensors;
    }

  -- `if !errors.is_empty() { return Ok(invalid_plan(errors)) }`
  unfoldable pub if_none : List Reason → Exec (Db F) ImportPlan → Exec (Db F) ImportPlan
  unfolding invalid_plan
  if_none [] next = next
  if_none (e ∷ es) next = pure (invalid_plan (e ∷ es))

unfoldable pub outcome_of : ImportPlan → DashboardSettings × DashboardSettings → ImportOutcome
outcome_of plan (previous, saved) = record {
  settings = saved;
  changed_keys = Changes.changed_keys previous saved;
  would_delete = plan.would_delete;
}

module _ {F : Type 0} (decode : Json → Result DashboardSettings)
    (encode : DashboardSettings → Result Json) where
  -- the plan of a candidate that passes every check
  unfoldable pub plan_valid :
      DashboardSettings → DashboardSettings → Json → ℤ → Exec (Db F) ImportPlan
  unfolding collect_unknown_settings_keys collect_members sort_by text_le would_delete
  plan_valid previous candidate settings_value now_ms = do
    serialized ← lift (encode candidate)
    counts ← would_delete candidate now_ms
    pure record {
      valid = true;
      errors = [];
      warnings =
          sort_by text_le
            (collect_unknown_settings_keys settings_value serialized (codes "settings"));
      changed_keys = Changes.changed_keys previous candidate;
      would_delete = counts;
      candidate = some candidate;
    }

  unfoldable pub plan_candidate :
      DashboardSettings
      → DiskPressureState
      → Json
      → ℤ
      → Result DashboardSettings
      → Exec (Db F) ImportPlan
  unfolding shown candidate_errors if_none plan_valid invalid_plan
  plan_candidate previous pressure settings_value now_ms (err e) =
      pure (invalid_plan (shown e ∷ []))
  plan_candidate previous pressure settings_value now_ms (ok decoded) =
      let candidate = normalize_legacy_mirrors decoded in
      if_none (candidate_errors candidate pressure previous)
        (plan_valid previous candidate settings_value now_ms)

  unfoldable pub plan_settings :
      DashboardSettings → DiskPressureState → ℤ → Option Json → Exec (Db F) ImportPlan
  unfolding plan_candidate document_from invalid_plan
  plan_settings previous pressure now_ms none =
      pure (invalid_plan (required_object "settings" ∷ []))
  plan_settings previous pressure now_ms (some value) =
      plan_candidate previous pressure value now_ms
        (from_document (document_from decode value) (some previous))

  unfoldable pub plan_envelope : Members → ℤ → Exec (Db F) ImportPlan
  unfolding if_none plan_settings validate_envelope get
  plan_envelope envelope now_ms = if_none (validate_envelope envelope) (do
    previous ← get_settings_on
    stored_pressure ← query (λ db. db.disk_pressure)
    plan_settings previous (unwrap_or no_pressure stored_pressure) now_ms
        (get envelope (codes "settings")))

  -- by `as_object` of the document
  unfoldable pub plan_object : ℤ → Option Members → Exec (Db F) ImportPlan
  unfolding plan_envelope invalid_plan
  plan_object now_ms none = pure (invalid_plan (required_object "configuration document" ∷ []))
  plan_object now_ms (some envelope) = plan_envelope envelope now_ms

  unfoldable pub plan_import : Json → ℤ → Exec (Db F) ImportPlan
  unfolding plan_object as_object
  plan_import document now_ms = plan_object now_ms (as_object document)

  -- the write of `apply_import`, once the plan is valid
  unfoldable pub apply_settings : ImportPlan → Option Json → Exec (Db F) ImportOutcome
  unfolding document_from outcome_of
  apply_settings plan none = raise (validation (required_object "settings"))
  apply_settings plan (some value) = do
    write ← put_settings_document (document_from decode value)
    pure (outcome_of plan write)

  unfoldable pub apply_import : Json → ℤ → Exec (Db F) ImportOutcome
  unfolding plan_import apply_settings get_in
  apply_import document now_ms = do
    plan ← plan_import document now_ms
    (if plan.valid
        then apply_settings plan (get_in document (codes "settings"))
        else raise (validations plan.errors))

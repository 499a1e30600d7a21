-- ===== src/Transfer/RoundTrip.antt =====
-- An export of the stored settings is imported again, and changes nothing.
use tinytop.Prelude.{
  ◌≡◌, ◌∙◌, refl, sym, ap, true, Option, none, some, [], Result, ok, arith, is_some, unwrap_or,
}
use tinytop.Prelude.Int.{ℤ}
use tinytop.Prelude.Text.{Text, codes}
use tinytop.Retention.Defs.{DiskPressureState, no_pressure, RetentionLadder, validate}
use tinytop.Retention.Validity.{validate-ok, validate-ok_pressure}
use tinytop.Retention.Growth.{Within-refl, grows_from-Within}
use tinytop.Settings.Dashboard.{
  DashboardSettings, normalize_legacy_mirrors, from_document, validate_settings,
}
use tinytop.Settings.Changes
use tinytop.Store.Exec.{query, ◌>>=◌}
use tinytop.Store.Rows.{Db}
use tinytop.Store.SettingsWrite.{settings_of_row, get_settings_on}
use tinytop.Transfer.Json.{Json, Members, no_members, member, integer, text, object, get}
use tinytop.Transfer.Defs.{
  SettingsDocument, export_document, ImportPlan, ImportOutcome, WouldDelete, validate_envelope,
  text_le,
}
use tinytop.Transfer.Plan.{
  plan_valid, plan_candidate, plan_settings, plan_envelope, plan_import, if_none, candidate_errors,
  errors_of, document_from, apply_import, collect_unknown_settings_keys,
}
use tinytop.Prelude.Sort.{sort_by}
use tinytop.Transfer.Counts.{ok_inj, calm, counts_of, would_delete-counts}
use tinytop.Transfer.Laws.{some_inj, apply_import-saves, apply_import-ok}

-- `serde_json::to_value` of a settings document whose settings become `value`
abbrev pub document_json : SettingsDocument → Json → Json
document_json d value = object (
    member (codes "tinytopConfigVersion") (integer d.tinytop_config_version) (
      member (codes "exportedAtMs") (integer d.exported_at_ms) (
        member (codes "agentVersion") (text d.agent_version)
          (member (codes "settings") value no_members))))

-- what serde promises of settings: they are written as an object with every block, and read back
pub record IsSaved (decode : Json → Result DashboardSettings)
    (encode : DashboardSettings → Result Json) (s : DashboardSettings) (members : Members)
    : Type 0 where
  pub encodes : encode s ≡ ok (object members)
  pub decodes : decode (object members) ≡ ok s
  pub ladder : is_some (get members (codes "retentionLadder")) ≡ true
  pub otel : is_some (get members (codes "otel")) ≡ true
  pub thermal : is_some (get members (codes "thermal")) ≡ true

-- valid settings do not grow from themselves
validate_self :
    (l : RetentionLadder) (pressure : DiskPressureState)
    → validate l none none ≡ ok tt
    → validate l (some pressure) (some l) ≡ ok tt
validate_self l pressure h =
    (validate-ok_pressure l pressure l).1
      ((validate-ok l).0 h, λ _. (grows_from-Within l l).1 (Within-refl l))

ladder-valid :
    (s : DashboardSettings)
    → validate_settings s ≡ ok tt
    → validate s.retention_ladder none none ≡ ok tt
unfolding validate_settings
ladder-valid s h = ground (arith, h)

candidate_errors_self :
    (s : DashboardSettings) (pressure : DiskPressureState)
    → validate_settings s ≡ ok tt
    → candidate_errors s pressure s ≡ []
unfolding candidate_errors
candidate_errors_self s pressure h =
    rw (h, validate_self s.retention_ladder pressure (ladder-valid s h), errors_of) refl

module _ (decode : Json → Result DashboardSettings) (encode : DashboardSettings → Result Json) where
  from_document_self :
      (s : DashboardSettings) (saved : Members) (previous : Option DashboardSettings)
      → IsSaved decode encode s saved
      → from_document (document_from decode (object saved)) previous ≡ ok s
  unfolding from_document document_from
  from_document_self s saved previous h = rw (h.decodes, h.ladder, h.otel, h.thermal) refl

-- the plan of settings that are imported over themselves
unfoldable pub self_plan : DashboardSettings → Members → WouldDelete → ImportPlan
self_plan s saved counts = record {
  valid = true;
  errors = [];
  warnings =
      sort_by text_le
        (collect_unknown_settings_keys (object saved) (object saved) (codes "settings"));
  changed_keys = [];
  would_delete = counts;
  candidate = some s;
}

module _ {F : Type 0} (decode : Json → Result DashboardSettings)
    (encode : DashboardSettings → Result Json) (s : DashboardSettings) (saved : Members)
    (h : IsSaved decode encode s saved) (valid : validate_settings s ≡ ok tt)
    (mirrors : normalize_legacy_mirrors s ≡ s) (now : ℤ) (db : Db F) where
  plan_valid_self :
      (plan_valid decode encode s s (object saved) now (calm db)).0
      ≡ ok (self_plan s saved (counts_of s now db))
  unfolding plan_valid self_plan
  plan_valid_self =
      ground (arith, h.encodes, would_delete-counts s now db, Changes.changed_keys_self s)

  plan_candidate_self :
      (pressure : DiskPressureState)
      → (plan_candidate decode encode s pressure (object saved) now (ok s) (calm db)).0
        ≡ ok (self_plan s saved (counts_of s now db))
  unfolding plan_candidate if_none
  plan_candidate_self pressure =
      rw (mirrors, candidate_errors_self s pressure valid) plan_valid_self

  plan_settings_self :
      (pressure : DiskPressureState)
      → (plan_settings decode encode s pressure now (some (object saved)) (calm db)).0
        ≡ ok (self_plan s saved (counts_of s now db))
  unfolding plan_settings
  plan_settings_self pressure =
      rw (from_document_self decode encode s saved (some s) h) (plan_candidate_self pressure)

  -- the plan, after the envelope is accepted
  plan_read :
      settings_of_row db.app_settings ≡ ok s
      → ((get_settings_on >>= λ previous. query (λ b. b.disk_pressure) >>= λ stored.
            plan_settings decode encode previous
              (unwrap_or no_pressure stored)
              now
              (some (object saved)))
          (calm db)).0
        ≡ ok (self_plan s saved (counts_of s now db))
  unfolding get_settings_on
  plan_read stored = rw stored (plan_settings_self (unwrap_or no_pressure db.disk_pressure))

  pub plan_import_self :
      (at_ms : ℤ) (agent : Text)
      → settings_of_row db.app_settings ≡ ok s
      → (plan_import decode encode
          (document_json (export_document s at_ms agent) (object saved))
          now
          (calm db)).0
        ≡ ok (self_plan s saved (counts_of s now db))
  unfolding plan_import plan_envelope if_none validate_envelope export_document
  plan_import_self at_ms agent stored = plan_read stored

  -- The stored settings, if they are valid and their mirrors are set, can be exported at any time and
  -- imported again: when no statement fails and serde reads settings back from what it wrote, the
  -- import succeeds, saves these settings, and reports no changed key.
  pub apply_import-export_document :
      (at_ms : ℤ) (agent : Text)
      → settings_of_row db.app_settings ≡ ok s
      → let document = document_json (export_document s at_ms agent) (object saved) in
        (outcome : ImportOutcome) × ((apply_import decode encode document now (calm db)).0
          ≡ ok outcome)
        × (outcome.settings ≡ s)
        × (outcome.changed_keys ≡ [])
  unfolding self_plan
  apply_import-export_document at_ms agent stored =
      let document = document_json (export_document s at_ms agent) (object saved) in
      let plan = self_plan s saved (counts_of s now db) in
      let planned = plan_import_self at_ms agent stored in
      let (outcome, done) = apply_import-saves decode encode document now db plan planned refl in
      let (plan', planned', _, f, _) =
        apply_import-ok decode encode document now (calm db) outcome done in
      let same : plan' ≡ plan = ok_inj (sym planned' ∙ planned) in
      (
        outcome,
        done,
        some_inj (sym f.settings ∙ ap (λ p. p.candidate) same),
        sym f.changes ∙ ap (λ p. p.changed_keys) same,
      )

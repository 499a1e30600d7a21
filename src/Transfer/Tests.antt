-- ===== src/Transfer/Tests.antt =====
-- The default settings, exported from a new database and imported again; an import that a failing
-- statement stops; and the counts of a database with one old GPU sample.
use tinytop.Prelude.{
  ◌≡◌, ◌↔◌, refl, ap, ℕ, Bool, true, false, some, none, List, [], ◌∷◌, Result, ok, err, sqlx,
}
use tinytop.Prelude.Int.{ℤ, pos}
use tinytop.Prelude.Text.{codes}
use tinytop.Retention.Defs.{to_ladder_config}
use tinytop.Settings.Dashboard.{DashboardSettings, default_settings}
use tinytop.Settings.Defaults.{default_settings-valid, default_settings-mirrors}
use tinytop.Store.Exec.{World, pure}
use tinytop.Store.Rows.{Db, empty_db}
use tinytop.Store.SettingsWrite.{settings_of_row}
use tinytop.Store.SettingsWrite.Laws.{written}
use tinytop.Maintenance.Defs.{Progress, empty_report}
use tinytop.Maintenance.Prune.{ArchiveMove}
use tinytop.Transfer.Json.{Json, Members, null, member, no_members, object, get}
use tinytop.Transfer.Defs.{export_document, ImportPlan, ImportOutcome}
use tinytop.Transfer.Plan.{plan_import, apply_import}
use tinytop.Transfer.Counts.{calm, counts_of, would_delete-counts}
use tinytop.Transfer.Deletes.{IsPruned, would_delete-prunes}
use tinytop.Transfer.Laws.{Follows, apply_import-ok, apply_import-err, apply_import-saves}
use tinytop.Transfer.RoundTrip.{
  IsSaved, document_json, self_plan, plan_import_self, apply_import-export_document,
}

-- a serde that knows the default settings only
abbrev blocks : Members
blocks =
    member (codes "retentionLadder") null
      (member (codes "otel") null (member (codes "thermal") null no_members))

abbrev decode : Json → Result DashboardSettings
decode value = ok default_settings

abbrev encode : DashboardSettings → Result Json
encode s = ok (object blocks)

default-IsSaved : IsSaved decode encode default_settings blocks
unfolding get tinytop.Prelude.Text.text_eq
default-IsSaved = record {
  encodes = refl;
  decodes = refl;
  ladder = refl;
  otel = refl;
  thermal = refl;
}

abbrev document : Json
document = document_json (export_document default_settings (pos 7) (codes "1.0")) (object blocks)

new_row : settings_of_row none ≡ ok default_settings
unfolding settings_of_row
new_row = refl

abbrev plan : ImportPlan
plan = self_plan default_settings blocks (counts_of default_settings (pos 9) (empty_db {F = ℕ}))

valid_default : tinytop.Settings.Dashboard.validate_settings default_settings ≡ ok tt
unfolding tinytop.Settings.Dashboard.normalize_legacy_mirrors tinytop.Prelude.Int.saturate
    tinytop.Prelude.Int.scale
valid_default = default_settings-valid

planned : (plan_import decode encode document (pos 9) (calm (empty_db {F = ℕ}))).0 ≡ ok plan
planned =
    plan_import_self decode encode default_settings blocks default-IsSaved valid_default
      default_settings-mirrors (pos 9) empty_db (pos 7) (codes "1.0") new_row

apply_import-export_document_example :
    (outcome : ImportOutcome) × ((apply_import decode encode document
        (pos 9)
        (calm (empty_db {F = ℕ}))).0
      ≡ ok outcome)
    × (outcome.settings ≡ default_settings)
    × (outcome.changed_keys ≡ [])
apply_import-export_document_example =
    apply_import-export_document decode encode default_settings blocks default-IsSaved valid_default
      default_settings-mirrors (pos 9) empty_db (pos 7) (codes "1.0") new_row

planned_valid : plan.valid ≡ true
unfolding self_plan
planned_valid = refl

apply_import-saves_example :
    (outcome : ImportOutcome) × ((apply_import decode encode document
        (pos 9)
        (calm (empty_db {F = ℕ}))).0
      ≡ ok outcome)
apply_import-saves_example =
    apply_import-saves decode encode document (pos 9) empty_db plan planned planned_valid

imported :
    (outcome : ImportOutcome) × ((apply_import decode encode document
        (pos 9)
        (calm (empty_db {F = ℕ}))).0
      ≡ ok outcome)
imported = apply_import-saves decode encode document (pos 9) empty_db plan planned planned_valid

apply_import-ok_example :
    (plan : ImportPlan) × ((plan_import decode encode document (pos 9) (calm (empty_db {F = ℕ}))).0
      ≡ ok plan)
    × (plan.valid ≡ true)
    × Follows plan imported.0
    × ((apply_import decode encode document (pos 9) (calm (empty_db {F = ℕ}))).1.db
        ≡ written empty_db imported.0.settings)
apply_import-ok_example =
    apply_import-ok decode encode document (pos 9) (calm empty_db) imported.0 imported.1

abbrev stopped : World (Db ℕ)
stopped = record { db = empty_db; faults = false ∷ true ∷ [] }

stopped_run : (apply_import decode encode document (pos 9) stopped).0 ≡ err sqlx
unfolding apply_import plan_import export_document tinytop.Store.SettingsWrite.get_settings_on
stopped_run = refl

apply_import-err_example : (apply_import decode encode document (pos 9) stopped).1.db ≡ empty_db
apply_import-err_example = apply_import-err decode encode document (pos 9) stopped sqlx stopped_run

abbrev envelope : Members
envelope = member (codes "settings") (object blocks) (member (codes "version") null no_members)

-- a day is over
abbrev later : ℤ
later = pos 1_000_000_000_000

abbrev one_gpu_row : Db ℕ
one_gpu_row = record empty_db { gpu_samples = pos 5 ∷ [] }

abbrev no_step : Progress
no_step = record { report = empty_report; first_error = none }

abbrev no_move : ArchiveMove ℕ
no_move cutoff limit = pure 0

would_delete-prunes_example :
    IsPruned
      (to_ladder_config default_settings.retention_ladder default_settings.poll_interval_ms)
      default_settings.retention_ladder.archive
      no_move
      later
      no_step
      (some (pos 7))
      none
      one_gpu_row
      (counts_of default_settings later one_gpu_row)
would_delete-prunes_example =
    would_delete-prunes default_settings no_move later no_step (some (pos 7)) none one_gpu_row
      (counts_of default_settings later one_gpu_row)
      (ap (λ r. r.0) (would_delete-counts default_settings later one_gpu_row))

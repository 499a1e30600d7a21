-- ===== src/Store/Tests.antt =====
-- Writes of the default settings, one of which fails, and a prune of two fast process rows.
use tinytop.Prelude.{◌≡◌, refl, ℕ, true, false, some, none, List, [], ◌∷◌, ok, err, sqlx, Bool}
use tinytop.Prelude.Int.{pos}
use tinytop.Retention.Defs.{no_pressure, validate}
use tinytop.Settings.Dashboard.{
  DashboardSettings, default_settings, normalize_legacy_mirrors, Document, document_of,
}
use tinytop.Settings.Defaults.{saved, default_settings-valid}
use tinytop.Store.Exec.{World}
use tinytop.Store.Rows.{Db, empty_db, ProcessRow}
use tinytop.Store.Tables.{delete_where}
use tinytop.Store.Detail.{prune_process_fast_history, prune_fast_loop, prune_fast_batch}
use tinytop.Store.Detail.Laws.{old, prune_process_fast_history-ok}
use tinytop.Store.SettingsWrite.{
  settings_of_row, put_settings, put_settings_document, get_settings_on, write_settings_on,
  document_body,
}
use tinytop.Store.SettingsWrite.Laws.{IsAccepted, written, put_settings-ok}

abbrev fresh : List Bool → World (Db ℕ)
fresh faults = record { db = empty_db; faults = faults }

saved_within :
    validate saved.retention_ladder (some no_pressure) (some default_settings.retention_ladder)
    ≡ ok tt
unfolding normalize_legacy_mirrors tinytop.Retention.Defs.validate
    tinytop.Retention.Defs.validate_ranges tinytop.Retention.Defs.validate_order
    tinytop.Retention.Defs.validate_archive tinytop.Retention.Defs.validate_growth
    tinytop.Retention.Defs.grows_from tinytop.Retention.Defs.grows_from_previous
    tinytop.Retention.Defs.enabled_horizon_grew
saved_within = refl

saved_run : (put_settings default_settings (fresh [])).0 ≡ ok saved
unfolding put_settings get_settings_on write_settings_on settings_of_row
saved_run = rw default_settings-valid (rw saved_within refl)

put_settings-ok_example :
    (previous : DashboardSettings) × (settings_of_row none ≡ ok previous)
    × (saved ≡ normalize_legacy_mirrors default_settings)
    × IsAccepted (empty_db {F = ℕ}) previous saved
    × ((put_settings default_settings (fresh [])).1.db ≡ written empty_db saved)
    × (settings_of_row (put_settings default_settings (fresh [])).1.db.app_settings ≡ ok saved)
put_settings-ok_example = put_settings-ok default_settings saved (fresh []) saved_run

-- the second statement fails
failed_run : (put_settings default_settings (fresh (false ∷ true ∷ []))).0 ≡ err sqlx
unfolding put_settings get_settings_on
failed_run = refl

abbrev document : Document
document = document_of default_settings

failed_document : (put_settings_document document (fresh (false ∷ true ∷ []))).0 ≡ err sqlx
unfolding put_settings_document document_body get_settings_on
failed_document = refl

-- an old and a recent row
abbrev rows : List ProcessRow
rows =
    record { captured_at_ms = pos 1; rank = 0; command_id = 4 }
    ∷ record { captured_at_ms = pos 9; rank = 0; command_id = 4 }
    ∷ []

abbrev with_rows : World (Db ℕ)
with_rows = record { db = record empty_db { process_samples_fast = rows }; faults = [] }

pruned_run : (prune_process_fast_history (pos 5) with_rows).0 ≡ ok 1
unfolding prune_process_fast_history prune_fast_loop prune_fast_batch
pruned_run = refl

prune_process_fast_history-ok_example :
    (prune_process_fast_history (pos 5) with_rows).1.db.process_samples_fast
    ≡ delete_where (old (pos 5)) rows
prune_process_fast_history-ok_example = prune_process_fast_history-ok (pos 5) 1 with_rows pruned_run

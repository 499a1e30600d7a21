-- ===== src/Store/SettingsWrite.antt =====
-- The settings row: `get_settings_on`, `write_settings_on` and the two transactions that call it.
-- The time of the update is not modelled.
pub mod Laws
use tinytop.Prelude.{
  ◌≡◌, refl, true, false, Bool, Option, none, some, [], Result, ok, err, unwrap_or, arith,
  StoreError,
}
use tinytop.Retention.Defs.{DiskPressureState, no_pressure, RetentionLadder, grows_from, validate}
use tinytop.Retention.Validity.{IsValid, validate-ok_pressure}
use tinytop.Settings.Dashboard.{
  DashboardSettings, default_settings, Document, from_document, document_of, validate_settings,
  normalize_legacy_mirrors,
}
use tinytop.Store.Exec.{
  World, Exec, pure, lift, query, update, transaction, transaction_atomic, ◌>>=◌, ◌>>◌,
}
use tinytop.Store.Rows.{Db}

-- settings read back must be valid
unfoldable pub settings_of_row : Option Document → Result DashboardSettings
settings_of_row none = ok default_settings
settings_of_row (some document) = elim (from_document document none) [
  | ok s ↦ elim (validate_settings s) [ ok _ ↦ ok s | err e ↦ err e ]
  | err e ↦ err e
]

module _ {F : Type 0} where
  unfoldable pub get_settings_on : Exec (Db F) DashboardSettings
  unfolding settings_of_row
  get_settings_on = do row ← query (λ db. db.app_settings); lift (settings_of_row row)

  unfoldable pub write_settings_on :
      DashboardSettings → DashboardSettings → Exec (Db F) DashboardSettings
  write_settings_on settings previous = do
    let normalized = normalize_legacy_mirrors settings
    stored_pressure ← query (λ db. db.disk_pressure)
    lift (validate_settings normalized)
    lift (
        validate normalized.retention_ladder (some (unwrap_or no_pressure stored_pressure))
          (some previous.retention_ladder))
    update (λ db. record db { app_settings = some (document_of normalized) })
    update (λ db. record db { l3_enabled = some normalized.retention_ladder.l3.enabled })
    update (λ db. record db { l4_enabled = some normalized.retention_ladder.l4.enabled })
    pure normalized

  unfoldable pub put_settings : DashboardSettings → Exec (Db F) DashboardSettings
  unfolding get_settings_on write_settings_on
  put_settings settings =
      transaction (do previous ← get_settings_on; write_settings_on settings previous)

  -- what `put_settings_document` does in its transaction
  unfoldable pub document_body : Document → Exec (Db F) (DashboardSettings × DashboardSettings)
  unfolding get_settings_on write_settings_on
  document_body document = do
    previous ← get_settings_on
    candidate ← lift (from_document document (some previous))
    saved ← write_settings_on candidate previous
    pure (previous, saved)

  unfoldable pub put_settings_document :
      Document → Exec (Db F) (DashboardSettings × DashboardSettings)
  unfolding document_body
  put_settings_document document = transaction (document_body document)

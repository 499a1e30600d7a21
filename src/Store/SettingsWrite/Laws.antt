-- ===== src/Store/SettingsWrite/Laws.antt =====
-- What a settings write does to the database, whichever statements fail.
use tinytop.Prelude.{◌≡◌, ◌∙◌, ap, sym, refl, some, [], ok, err, unwrap_or, arith, StoreError}
use mathlib.Core.Path.{subst}
use tinytop.Retention.Defs.{no_pressure, validate}
use tinytop.Settings.Dashboard.{
  DashboardSettings, Document, from_document, document_of, validate_settings,
  normalize_legacy_mirrors,
}
use tinytop.Store.Exec.{
  World, Exec, pure, lift, transaction_atomic, transaction-ok, >>=-eq-ok, ◌>>=◌,
}
use tinytop.Store.Rows.{Db}
use tinytop.Store.SettingsWrite.{
  settings_of_row, get_settings_on, write_settings_on, put_settings, document_body,
  put_settings_document,
}

-- what a row that was written reads as
settings_of_row-written :
    (s : DashboardSettings)
    → validate_settings s ≡ ok tt
    → settings_of_row (some (document_of s)) ≡ ok s
unfolding settings_of_row from_document document_of
settings_of_row-written s h = rw (h, settings_of_row) refl

module _ {F : Type 0} where
  -- the database after a write
  abbrev pub written : Db F → DashboardSettings → Db F
  written db saved = record db {
    app_settings = some (document_of saved);
    l3_enabled = some saved.retention_ladder.l3.enabled;
    l4_enabled = some saved.retention_ladder.l4.enabled;
  }

  -- `saved` is accepted over `previous` by the settings in `db`
  pub record IsAccepted (db : Db F) (previous saved : DashboardSettings) : Type 0 where
    pub valid : validate_settings saved ≡ ok tt
    pub within_pressure :
        validate saved.retention_ladder
          (some (unwrap_or no_pressure db.disk_pressure))
          (some previous.retention_ladder)
        ≡ ok tt

  write_settings_on-ok :
      (s previous saved : DashboardSettings) (w : World (Db F))
      → (write_settings_on s previous w).0 ≡ ok saved
      → (saved ≡ normalize_legacy_mirrors s)
        × IsAccepted w.db previous saved
        × ((write_settings_on s previous w).1.db ≡ written w.db saved)
  unfolding write_settings_on
  write_settings_on-ok s previous saved w h =
      (ground arith, record { valid = ground arith; within_pressure = ground arith }, ground arith)

  pub get_settings_on-ok :
      (previous : DashboardSettings) (w : World (Db F))
      → (get_settings_on w).0 ≡ ok previous
      → (settings_of_row w.db.app_settings ≡ ok previous) × ((get_settings_on w).1.db ≡ w.db)
  unfolding get_settings_on
  get_settings_on-ok previous w h = (ground arith, ground arith)

  -- the body of `put_settings`
  body-ok :
      (s saved : DashboardSettings) (w : World (Db F))
      → ((get_settings_on >>= λ previous. write_settings_on s previous) w).0 ≡ ok saved
      → (previous : DashboardSettings) × (settings_of_row w.db.app_settings ≡ ok previous)
        × (saved ≡ normalize_legacy_mirrors s)
        × IsAccepted w.db previous saved
        × (((get_settings_on >>= λ previous. write_settings_on s previous) w).1.db
            ≡ written w.db saved)
  body-ok s saved w h =
      let (previous, p, h', e) = >>=-eq-ok get_settings_on (λ p. write_settings_on s p) w saved h in
      let (row, same) = get_settings_on-ok previous w p in
      let w' = (get_settings_on w).1 in
      let (n, a, d) = write_settings_on-ok s previous saved w' h' in
      (
        previous,
        row,
        n,
        subst (λ db. IsAccepted db previous saved) same a,
        ap (λ v. v.db) e ∙ d ∙ ap (λ db. written db saved) same,
      )

  -- A successful `put_settings` saves the settings with their legacy mirrors set from the ladder;
  -- these pass `validate`, also against the disk pressure and the ladder stored before; and the
  -- database differs only in the settings row, which reads as the saved settings, and in the flags
  -- of L3 and L4, which are those of the saved ladder.
  pub put_settings-ok :
      (s saved : DashboardSettings) (w : World (Db F))
      → (put_settings s w).0 ≡ ok saved
      → (previous : DashboardSettings) × (settings_of_row w.db.app_settings ≡ ok previous)
        × (saved ≡ normalize_legacy_mirrors s)
        × IsAccepted w.db previous saved
        × ((put_settings s w).1.db ≡ written w.db saved)
        × (settings_of_row (put_settings s w).1.db.app_settings ≡ ok saved)
  unfolding put_settings
  put_settings-ok s saved w h =
      let (w', same, hb, d) =
        transaction-ok (get_settings_on >>= λ p. write_settings_on s p) w saved h in
      let (previous, row, n, a, e) = body-ok s saved w' hb in
      let db_eq = d ∙ e ∙ ap (λ db. written db saved) same in
      (
        previous,
        ap (λ db. settings_of_row db.app_settings) (sym same) ∙ row,
        n,
        subst (λ db. IsAccepted db previous saved) same a,
        db_eq,
        ap (λ db. settings_of_row db.app_settings) db_eq ∙ settings_of_row-written saved a.valid,
      )

  -- A failed write leaves the database as it was, whichever statement or check failed.
  put_settings-err :
      (s : DashboardSettings) (w : World (Db F)) (e : StoreError)
      → (put_settings s w).0 ≡ err e
      → (put_settings s w).1.db ≡ w.db
  unfolding put_settings
  put_settings-err s w e h =
      transaction_atomic (get_settings_on >>= λ p. write_settings_on s p) w e h

  -- A settings document that is not saved, refused or failed, leaves the database as it was.
  pub put_settings_document-err :
      (document : Document) (w : World (Db F)) (e : StoreError)
      → (put_settings_document document w).0 ≡ err e
      → (put_settings_document document w).1.db ≡ w.db
  unfolding put_settings_document
  put_settings_document-err document w e h = transaction_atomic (document_body document) w e h

  -- the end of the body, over the settings read before
  save : DashboardSettings → DashboardSettings → Exec (Db F) (DashboardSettings × DashboardSettings)
  save previous candidate = write_settings_on candidate previous >>= λ saved. pure (previous, saved)

  save-ok :
      (p candidate previous saved : DashboardSettings) (w : World (Db F))
      → (save p candidate w).0 ≡ ok (previous, saved)
      → (p ≡ previous)
        × ((write_settings_on candidate p w).0 ≡ ok saved)
        × ((save p candidate w).1 ≡ (write_settings_on candidate p w).1)
  unfolding save
  save-ok p candidate previous saved w h =
      let (s, hs, k, e) =
        >>=-eq-ok (write_settings_on candidate p) (λ s. pure (p, s)) w (previous, saved) h in
      (ground arith, ground arith, e)

  decode_and_save :
      Document → DashboardSettings → Exec (Db F) (DashboardSettings × DashboardSettings)
  unfolding save
  decode_and_save document previous =
      lift (from_document document (some previous)) >>= λ candidate. save previous candidate

  document_body-ok :
      (document : Document) (previous saved : DashboardSettings) (w : World (Db F))
      → (document_body document w).0 ≡ ok (previous, saved)
      → (candidate : DashboardSettings) × (settings_of_row w.db.app_settings ≡ ok previous)
        × (from_document document (some previous) ≡ ok candidate)
        × (saved ≡ normalize_legacy_mirrors candidate)
        × IsAccepted w.db previous saved
        × ((document_body document w).1.db ≡ written w.db saved)
  unfolding document_body decode_and_save save
  document_body-ok document previous saved w h =
      let (p, hp, k, e) =
        >>=-eq-ok get_settings_on (decode_and_save document) w (previous, saved) h in
      let (row, same) = get_settings_on-ok p w hp in
      let v = (get_settings_on w).1 in
      let (c, hc, k', e') =
        >>=-eq-ok (lift (from_document document (some p))) (save p) v (previous, saved) k in
      let (pp, hw, ew) = save-ok p c previous saved v k' in
      let (n, a, d) = write_settings_on-ok c p saved v hw in
      let db_eq = ap (λ u. u.db) e ∙ ap (λ u. u.db) e' ∙ ap (λ u. u.db) ew ∙ d in
      (
        c,
        row ∙ ap ok pp,
        subst (λ q. from_document document (some q) ≡ ok c) pp hc,
        n,
        subst (λ q. IsAccepted w.db q saved) pp (subst (λ db. IsAccepted db p saved) same a),
        db_eq ∙ ap (λ db. written db saved) same,
      )

  -- A successful `put_settings_document` saves the decoded document, completed from the settings
  -- stored before, with its legacy mirrors set; these settings pass every check.
  pub put_settings_document-ok :
      (document : Document) (previous saved : DashboardSettings) (w : World (Db F))
      → (put_settings_document document w).0 ≡ ok (previous, saved)
      → (candidate : DashboardSettings) × (settings_of_row w.db.app_settings ≡ ok previous)
        × (from_document document (some previous) ≡ ok candidate)
        × (saved ≡ normalize_legacy_mirrors candidate)
        × IsAccepted w.db previous saved
        × ((put_settings_document document w).1.db ≡ written w.db saved)
  unfolding put_settings_document
  put_settings_document-ok document previous saved w h =
      let (v, same, hb, d) = transaction-ok (document_body document) w (previous, saved) h in
      let (c, row, dec, n, a, e) = document_body-ok document previous saved v hb in
      (
        c,
        ap (λ db. settings_of_row db.app_settings) (sym same) ∙ row,
        dec,
        n,
        subst (λ db. IsAccepted db previous saved) same a,
        d ∙ e ∙ ap (λ db. written db saved) same,
      )

  -- A document that is decoded to settings which pass every check is saved, when no statement fails.
  pub put_settings_document-saves :
      (document : Document) (previous candidate : DashboardSettings) (db : Db F)
      → settings_of_row db.app_settings ≡ ok previous
      → from_document document (some previous) ≡ ok candidate
      → IsAccepted db previous (normalize_legacy_mirrors candidate)
      → (put_settings_document document record { db = db; faults = [] }).0
        ≡ ok (previous, normalize_legacy_mirrors candidate)
  unfolding put_settings_document document_body get_settings_on write_settings_on
  put_settings_document-saves document previous candidate db row d a =
      ground (arith, a.valid, a.within_pressure)

-- ===== src/Transfer/Reads.antt =====
-- The plan of an import only reads.
use tinytop.Prelude.{
  ◌≤◌, length, ◌≡◌, refl, inl, inr, Option, none, some, List, [], ◌∷◌, Reason, Result, Result-cases,
  ok, err, arith, unwrap_or,
}
use tinytop.Prelude.Int.{ℤ}
use tinytop.Retention.Defs.{DiskPressureState, no_pressure}
use tinytop.Settings.Dashboard.{DashboardSettings, normalize_legacy_mirrors, from_document}
use tinytop.Prelude.Text.{codes}
use tinytop.Tiers.Defs.{Tier, l1, l2, l3, l4}
use tinytop.Store.Exec.{World, Exec, query, ◌>>=◌}
use tinytop.Store.Rows.{Db}
use tinytop.Store.SettingsWrite.{get_settings_on}
use tinytop.Transfer.Json.{Json, Members, as_object, get}
use tinytop.Transfer.Defs.{ImportPlan, validate_envelope}
use tinytop.Transfer.Plan.{
  count_rows_older_than, would_delete, if_none, plan_valid, plan_candidate, plan_settings,
  plan_envelope, plan_object, plan_import, candidate_errors, document_from,
}

module _ {F : Type 0} where
  -- an action that leaves the database, and uses no more than the faults that there are
  abbrev pub Reads : {A : Type 0} → Exec (Db F) A → Type 0
  Reads m = (w : World (Db F)) → ((m w).1.db ≡ w.db) × (length (m w).1.faults ≤ length w.faults)

  bind-Reads :
      {A B : Type 0} (m : Exec (Db F) A) (f : A → Exec (Db F) B)
      → Reads m
      → ((a : A) → Reads (f a))
      → Reads (m >>= f)
  bind-Reads m f km kf w = elim (Result-cases (m w).0) [
    | inl (a, e) ↦ ground (arith, km w, kf a (m w).1)
    | inr (x, e) ↦ ground (arith, km w)
  ]

  query-Reads : {A : Type 0} (f : Db F → A) → Reads (query f)
  query-Reads f w = ground arith

  count_rows_older_than-Reads : (t : Tier) (cutoff : ℤ) → Reads (count_rows_older_than t cutoff)
  unfolding count_rows_older_than
  count_rows_older_than-Reads l1 cutoff w = ground arith
  count_rows_older_than-Reads l2 cutoff w = ground arith
  count_rows_older_than-Reads l3 cutoff w = ground arith
  count_rows_older_than-Reads l4 cutoff w = ground arith

  would_delete-Reads : (s : DashboardSettings) (now : ℤ) → Reads (would_delete s now)
  unfolding would_delete
  would_delete-Reads s now w = ground arith

  if_none-Reads : (es : List Reason) (m : Exec (Db F) ImportPlan) → Reads m → Reads (if_none es m)
  unfolding if_none
  if_none-Reads [] m k w = k w
  if_none-Reads (e ∷ es) m k w = (refl, omega arith)

  get_settings_on-Reads : Reads get_settings_on
  unfolding get_settings_on
  get_settings_on-Reads w = ground arith

module _ {F : Type 0} (decode : Json → Result DashboardSettings)
    (encode : DashboardSettings → Result Json) where
  plan_valid-Reads :
      (previous candidate : DashboardSettings) (value : Json) (now : ℤ)
      → Reads {F = F} (plan_valid decode encode previous candidate value now)
  unfolding plan_valid
  plan_valid-Reads previous candidate value now w = elim (Result-cases (encode candidate)) [
    | inl (a, e) ↦ ground (arith, would_delete-Reads candidate now w)
    | inr (x, e) ↦ ground arith
  ]

  plan_candidate-Reads :
      (previous : DashboardSettings) (pressure : DiskPressureState) (value : Json) (now : ℤ)
      (r : Result DashboardSettings)
      → Reads {F = F} (plan_candidate decode encode previous pressure value now r)
  unfolding plan_candidate
  plan_candidate-Reads previous pressure value now (err e) w = (refl, omega arith)
  plan_candidate-Reads previous pressure value now (ok s) w =
      let c = normalize_legacy_mirrors s in
      if_none-Reads (candidate_errors c pressure previous)
        (plan_valid decode encode previous c value now) (plan_valid-Reads previous c value now) w

  plan_settings-Reads :
      (previous : DashboardSettings) (pressure : DiskPressureState) (now : ℤ) (value : Option Json)
      → Reads {F = F} (plan_settings decode encode previous pressure now value)
  unfolding plan_settings
  plan_settings-Reads previous pressure now none w = (refl, omega arith)
  plan_settings-Reads previous pressure now (some value) w =
      plan_candidate-Reads previous pressure value now
        (from_document (document_from decode value) (some previous)) w

  -- the plan, after the settings are read
  pressed_plan : Option Json → ℤ → DashboardSettings → Exec (Db F) ImportPlan
  pressed_plan value now previous = query (λ db. db.disk_pressure) >>= λ stored.
      plan_settings decode encode previous (unwrap_or no_pressure stored) now value

  plan_envelope-Reads :
      (envelope : Members) (now : ℤ) → Reads {F = F} (plan_envelope decode encode envelope now)
  unfolding plan_envelope pressed_plan
  plan_envelope-Reads envelope now =
      let value = get envelope (codes "settings") in
      if_none-Reads (validate_envelope envelope) (get_settings_on >>= pressed_plan value now) (
        bind-Reads get_settings_on (pressed_plan value now) get_settings_on-Reads (λ previous.
          bind-Reads (query (λ db. db.disk_pressure))
            (λ stored.
              plan_settings decode encode previous (unwrap_or no_pressure stored) now value)
            (query-Reads (λ db. db.disk_pressure))
            (λ stored. plan_settings-Reads previous (unwrap_or no_pressure stored) now value)))

  plan_object-Reads :
      (now : ℤ) (envelope : Option Members) → Reads {F = F} (plan_object decode encode now envelope)
  unfolding plan_object
  plan_object-Reads now none w = (refl, omega arith)
  plan_object-Reads now (some envelope) w = plan_envelope-Reads envelope now w

  pub plan_import-Reads :
      (document : Json) (now : ℤ) → Reads {F = F} (plan_import decode encode document now)
  unfolding plan_import
  plan_import-Reads document now = plan_object-Reads now (as_object document)

-- ===== src/Transfer/Laws.antt =====
-- What an import does: the plan says what the write will do, and an import that fails does nothing.
use tinytop.Prelude.{
  ◌≡◌, ◌∙◌, ap, sym, refl, true, Bool, Bool-cases, inl, inr, Option, none, some, List, [], ◌∷◌,
  Result, Result-cases, ok, err, arith, unwrap_or, StoreError, validations, length, if◌then◌else◌,
}
use mathlib.Core.Path.{subst}
use tinytop.Prelude.Int.{ℤ}
use tinytop.Prelude.Text.{codes}
use tinytop.Retention.Defs.{DiskPressureState, no_pressure, validate}
use tinytop.Settings.Dashboard.{
  DashboardSettings, normalize_legacy_mirrors, validate_settings, from_document,
}
use tinytop.Settings.Changes
use tinytop.Store.Exec.{World, Exec, pure, raise, >>=-eq-ok, >>=-eq-err, >>=-of_ok}
use tinytop.Store.Rows.{Db}
use tinytop.Store.SettingsWrite.{settings_of_row, put_settings_document}
use tinytop.Store.SettingsWrite.Laws.{
  written, put_settings_document-ok, put_settings_document-err, put_settings_document-saves,
}
use tinytop.Transfer.Json.{Json, get_in}
use tinytop.Transfer.Defs.{ImportPlan, ImportOutcome}
use tinytop.Transfer.Plan.{
  errors_of, plan_import, candidate_errors, document_from, outcome_of, apply_settings, apply_import,
}
use tinytop.Transfer.Reads.{plan_import-Reads}
use tinytop.Transfer.Counts.{ok_inj}
use tinytop.Transfer.Envelope.{append-nil_parts}
use tinytop.Transfer.Planned.{IsPlanned, plan_import-ok}

errors_of-nil : (r : Result (Unit {0})) → errors_of r ≡ [] → r ≡ ok tt
unfolding errors_of
errors_of-nil (ok tt) h = refl
errors_of-nil (err e) h = cc

candidate_errors-nil :
    (c previous : DashboardSettings) (pressure : DiskPressureState)
    → candidate_errors c pressure previous ≡ []
    → (validate_settings c ≡ ok tt)
      × (validate c.retention_ladder (some pressure) (some previous.retention_ladder) ≡ ok tt)
unfolding candidate_errors
candidate_errors-nil c previous pressure h =
    let l = validate c.retention_ladder (some pressure) (some previous.retention_ladder) in
    let (a, b) = append-nil_parts (errors_of (validate_settings c)) (errors_of l) h in
    (errors_of-nil (validate_settings c) a, errors_of-nil l b)

no_more : (fs : List Bool) → length fs ≡ 0 → fs ≡ []
no_more [] h = refl
no_more (f ∷ fs) h = absurd (omega arith)

-- the outcome agrees with the plan
pub record Follows (plan : ImportPlan) (outcome : ImportOutcome) : Type 0 where
  pub settings : plan.candidate ≡ some outcome.settings
  pub changes : plan.changed_keys ≡ outcome.changed_keys
  pub counts : plan.would_delete ≡ outcome.would_delete

pub some_inj : {A : Type 0} {a b : A} → some a ≡ some b → a ≡ b
some_inj h = cc

module _ {F : Type 0} (decode : Json → Result DashboardSettings)
    (encode : DashboardSettings → Result Json) where
  -- what `apply_import` does with a plan
  go_on : Json → ImportPlan → Exec (Db F) ImportOutcome
  go_on document plan =
      if plan.valid
      then apply_settings decode encode plan (get_in document (codes "settings"))
      else raise (validations plan.errors)

  apply_settings-ok :
      (plan : ImportPlan) (value : Option Json) (db : Db F) (w : World (Db F))
      (outcome : ImportOutcome)
      → w.db ≡ db
      → IsPlanned decode db value plan
      → (apply_settings decode encode plan value w).0 ≡ ok outcome
      → Follows plan outcome
        × ((apply_settings decode encode plan value w).1.db ≡ written db outcome.settings)
  unfolding apply_settings outcome_of
  apply_settings-ok plan none db w outcome same p h = absurd (ground arith)
  apply_settings-ok plan (some value) db w outcome same p h =
      let put = put_settings_document (document_from decode value) in
      let ((previous, saved), hp, hs, e) =
        >>=-eq-ok put (λ write. pure (outcome_of plan write)) w outcome h in
      let out : outcome_of plan (previous, saved) ≡ outcome = ground (arith, hs) in
      let (c, row, dec, n, _, d) =
        put_settings_document-ok (document_from decode value) previous saved w hp in
      let before : previous ≡ p.previous =
        ok_inj (sym row ∙ ap (λ b. settings_of_row b.app_settings) same ∙ p.stored) in
      let read : c ≡ p.decoded = ok_inj (
        sym dec
        ∙ ap (λ v. from_document (document_from decode v) (some previous)) (some_inj p.found)
        ∙ ap (λ s. from_document (document_from decode p.value) (some s)) before
        ∙ p.decodes) in
      let now_saved : saved ≡ normalize_legacy_mirrors p.decoded =
        n ∙ ap normalize_legacy_mirrors read in
      let kept : saved ≡ outcome.settings = ap (λ o. o.settings) out in
      (
        record {
          settings = p.candidate ∙ ap some (sym now_saved ∙ kept);
          changes =
              p.changes
              ∙ ap (λ s. Changes.changed_keys p.previous s) (sym now_saved)
              ∙ ap (λ s. Changes.changed_keys s saved) (sym before)
              ∙ ap (λ o. o.changed_keys) out;
          counts = ap (λ o. o.would_delete) out;
        },
        ap (λ u. u.db) e ∙ d ∙ ap (λ b. written b saved) same ∙ ap (λ s. written db s) kept,
      )

  apply_settings-err :
      (plan : ImportPlan) (value : Option Json) (w : World (Db F)) (e : StoreError)
      → (apply_settings decode encode plan value w).0 ≡ err e
      → (apply_settings decode encode plan value w).1.db ≡ w.db
  unfolding apply_settings
  apply_settings-err plan none w e h = refl
  apply_settings-err plan (some value) w e h =
      let put = put_settings_document (document_from decode value) in
      elim (Result-cases (put w).0) [
        | inl (a, r) ↦ absurd (ground arith)
        | inr (x, r) ↦ ground (arith, put_settings_document-err (document_from decode value) w x r)
      ]

  go_on-err :
      (document : Json) (plan : ImportPlan) (w : World (Db F)) (e : StoreError)
      → (go_on document plan w).0 ≡ err e
      → (go_on document plan w).1.db ≡ w.db
  unfolding go_on
  go_on-err document plan w e h = elim (Bool-cases plan.valid) [
    | inl v ↦ ground (arith, apply_settings-err plan (get_in document (codes "settings")) w e)
    | inr v ↦ ground arith
  ]

  -- An import that fails, because the document is refused, because the store changed its mind or
  -- because any statement failed, leaves the database as it was.
  pub apply_import-err :
      (document : Json) (now : ℤ) (w : World (Db F)) (e : StoreError)
      → (apply_import decode encode document now w).0 ≡ err e
      → (apply_import decode encode document now w).1.db ≡ w.db
  unfolding apply_import go_on
  apply_import-err document now w e h =
      let plan_it = plan_import decode encode document now in
      let (same, _) = plan_import-Reads decode encode document now w in
      elim (>>=-eq-err plan_it (go_on document) w e h) [
        | inl (a, b) ↦ ap (λ u. u.db) b ∙ same
        | inr (plan, a, b, c) ↦ ap (λ u. u.db) c ∙ go_on-err document plan (plan_it w).1 e b ∙ same
      ]

  go_on-ok :
      (document : Json) (plan : ImportPlan) (db : Db F) (w : World (Db F)) (outcome : ImportOutcome)
      → w.db ≡ db
      → (plan.valid ≡ true → IsPlanned decode db (get_in document (codes "settings")) plan)
      → (go_on document plan w).0 ≡ ok outcome
      → (plan.valid ≡ true)
        × Follows plan outcome
        × ((go_on document plan w).1.db ≡ written db outcome.settings)
  unfolding go_on
  go_on-ok document plan db w outcome same p h = elim (Bool-cases plan.valid) [
    | inl v ↦
        let value = get_in document (codes "settings") in
        let h' : (apply_settings decode encode plan value w).0 ≡ ok outcome = ground (arith, h) in
        let (f, d) = apply_settings-ok plan value db w outcome same (p v) h' in
        (v, f, ground (arith, d))
    | inr v ↦ absurd (ground (arith, h))
  ]

  -- An import that succeeds did what its plan says: the plan that `plan_import` makes of the same
  -- document and database is valid, with no change in between; its candidate is what is saved, its
  -- changed keys and counts are those reported; and the database differs only in the settings row,
  -- which holds the candidate, and in the flags of L3 and L4, which are those of its ladder.
  pub apply_import-ok :
      (document : Json) (now : ℤ) (w : World (Db F)) (outcome : ImportOutcome)
      → (apply_import decode encode document now w).0 ≡ ok outcome
      → (plan : ImportPlan) × ((plan_import decode encode document now w).0 ≡ ok plan)
        × (plan.valid ≡ true)
        × Follows plan outcome
        × ((apply_import decode encode document now w).1.db ≡ written w.db outcome.settings)
  unfolding apply_import go_on
  apply_import-ok document now w outcome h =
      let plan_it = plan_import decode encode document now in
      let (same, _) = plan_import-Reads decode encode document now w in
      let (plan, hp, k, e) = >>=-eq-ok plan_it (go_on document) w outcome h in
      let (v, f, d) =
        go_on-ok document plan w.db (plan_it w).1 outcome same
          (plan_import-ok decode encode document now w plan hp) k in
      (plan, hp, v, f, ap (λ u. u.db) e ∙ d)

  apply_settings-saves :
      (plan : ImportPlan) (value : Option Json) (db : Db F)
      → IsPlanned decode db value plan
      → (outcome : ImportOutcome) × ((apply_settings decode encode plan value
            record { db = db; faults = [] }).0
          ≡ ok outcome)
  unfolding apply_settings
  apply_settings-saves plan none db p = absurd (ground (arith, p.found))
  apply_settings-saves plan (some value) db p =
      let c = normalize_legacy_mirrors p.decoded in
      let (valid, within) =
        candidate_errors-nil c p.previous (unwrap_or no_pressure db.disk_pressure) p.sound in
      let saves =
        put_settings_document-saves (document_from decode value) p.previous p.decoded db p.stored
          (rw (some_inj p.found) p.decodes) record { valid = valid; within_pressure = within } in
      (outcome_of plan (p.previous, c), ground (arith, saves))

  go_on-valid :
      (document : Json) (plan : ImportPlan) (w : World (Db F))
      → plan.valid ≡ true
      → (go_on document plan w).0
        ≡ (apply_settings decode encode plan (get_in document (codes "settings")) w).0
  unfolding go_on
  go_on-valid document plan w v = rw v refl

  -- A document whose plan is valid is imported, when no statement fails: no check of the write refuses
  -- what the plan accepted.
  pub apply_import-saves :
      (document : Json) (now : ℤ) (db : Db F) (plan : ImportPlan)
      → (plan_import decode encode document now record { db = db; faults = [] }).0 ≡ ok plan
      → plan.valid ≡ true
      → (outcome : ImportOutcome) × ((apply_import decode encode document now
            record { db = db; faults = [] }).0
          ≡ ok outcome)
  unfolding apply_import go_on
  apply_import-saves document now db plan h v =
      let w : World (Db F) = record { db = db; faults = [] } in
      let after = (plan_import decode encode document now w).1 in
      let (same, few) = plan_import-Reads decode encode document now w in
      let p = plan_import-ok decode encode document now w plan h v in
      let (outcome, saves) =
        apply_settings-saves plan (get_in document (codes "settings")) after.db (
          subst (λ b. IsPlanned decode b (get_in document (codes "settings")) plan) (sym same) p) in
      let none_left : after.faults ≡ [] = no_more after.faults (omega arith) in
      let calm : after ≡ record { db = after.db; faults = [] } =
        λ i. record { db = after.db; faults = none_left i } in
      (
        outcome,
        ap (λ r. r.0) (>>=-of_ok (plan_import decode encode document now) (go_on document) w plan h)
            ∙ ap (λ u. (go_on document plan u).0) calm
            ∙ go_on-valid document plan record { db = after.db; faults = [] } v
            ∙ saves,
      )

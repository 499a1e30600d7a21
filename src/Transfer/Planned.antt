-- ===== src/Transfer/Planned.antt =====
-- What a valid plan of an import was made from.
use tinytop.Prelude.{
  ◌≡◌, ◌∙◌, ap, sym, refl, true, inl, inr, Option, none, some, List, [], ◌∷◌, Reason, Result,
  Result-cases, ok, err, arith, unwrap_or,
}
use mathlib.Core.Path.{subst}
use tinytop.Prelude.Int.{ℤ}
use tinytop.Prelude.Text.{codes}
use tinytop.Retention.Defs.{no_pressure}
use tinytop.Settings.Dashboard.{DashboardSettings, normalize_legacy_mirrors, from_document}
use tinytop.Settings.Changes
use tinytop.Store.Exec.{World, Exec, query, ◌>>=◌, >>=-eq-ok}
use tinytop.Store.Rows.{Db}
use tinytop.Store.SettingsWrite.{settings_of_row, get_settings_on}
use tinytop.Store.SettingsWrite.Laws.{get_settings_on-ok}
use tinytop.Transfer.Json.{Json, Members, as_object, get, get_in, object}
use tinytop.Transfer.Defs.{ImportPlan, validate_envelope, invalid_plan}
use tinytop.Transfer.Plan.{
  if_none, plan_valid, plan_candidate, plan_settings, plan_envelope, plan_object, plan_import,
  candidate_errors, document_from,
}

-- what a valid plan was made from
pub record IsPlanned {F : Type 0} (decode : Json → Result DashboardSettings) (db : Db F)
    (document : Option Json) (plan : ImportPlan) : Type 0 where
  pub value : Json
  pub previous : DashboardSettings
  pub decoded : DashboardSettings
  pub found : document ≡ some value
  pub stored : settings_of_row db.app_settings ≡ ok previous
  pub decodes : from_document (document_from decode value) (some previous) ≡ ok decoded
  pub sound :
      candidate_errors
        (normalize_legacy_mirrors decoded)
        (unwrap_or no_pressure db.disk_pressure)
        previous
      ≡ []
  pub candidate : plan.candidate ≡ some (normalize_legacy_mirrors decoded)
  pub changes : plan.changed_keys ≡ Changes.changed_keys previous (normalize_legacy_mirrors decoded)

if_none-valid :
    {F : Type 0} (es : List Reason) (m : Exec (Db F) ImportPlan) (w : World (Db F))
    (plan : ImportPlan)
    → (if_none es m w).0 ≡ ok plan
    → plan.valid ≡ true
    → (es ≡ []) × ((m w).0 ≡ ok plan)
unfolding if_none invalid_plan
if_none-valid [] m w plan h v = (refl, h)
if_none-valid (e ∷ es) m w plan h v = absurd (ground arith)

get_in-as_object :
    (document : Json) (envelope : Members)
    → as_object document ≡ some envelope
    → get_in document (codes "settings") ≡ get envelope (codes "settings")
unfolding as_object get_in
get_in-as_object Json.null envelope h = cc
get_in-as_object (Json.boolean b) envelope h = cc
get_in-as_object (Json.integer z) envelope h = cc
get_in-as_object (Json.number t) envelope h = cc
get_in-as_object (Json.text t) envelope h = cc
get_in-as_object (Json.array t) envelope h = cc
get_in-as_object (object _) envelope h = cc

module _ {F : Type 0} (decode : Json → Result DashboardSettings)
    (encode : DashboardSettings → Result Json) where
  plan_valid-ok :
      (previous c : DashboardSettings) (value : Json) (now : ℤ) (w : World (Db F))
      (plan : ImportPlan)
      → (plan_valid decode encode previous c value now w).0 ≡ ok plan
      → (plan.candidate ≡ some c) × (plan.changed_keys ≡ Changes.changed_keys previous c)
  unfolding plan_valid
  plan_valid-ok previous c value now w plan h = elim (Result-cases (encode c)) [
    | inl (a, e) ↦ ground arith
    | inr (x, e) ↦ ground arith
  ]

  plan_candidate-ok :
      (previous : DashboardSettings) (now : ℤ) (value : Json) (db : Db F) (w : World (Db F))
      (plan : ImportPlan) (r : Result DashboardSettings)
      → settings_of_row db.app_settings ≡ ok previous
      → from_document (document_from decode value) (some previous) ≡ r
      → (plan_candidate decode encode previous
          (unwrap_or no_pressure db.disk_pressure)
          value
          now
          r
          w).0
        ≡ ok plan
      → plan.valid ≡ true
      → IsPlanned decode db (some value) plan
  unfolding plan_candidate invalid_plan
  plan_candidate-ok previous now value db w plan (err e) row d h v = absurd (ground arith)
  plan_candidate-ok previous now value db w plan (ok s) row d h v =
      let c = normalize_legacy_mirrors s in
      let (sound, h') =
        if_none-valid (candidate_errors c (unwrap_or no_pressure db.disk_pressure) previous)
          (plan_valid decode encode previous c value now) w plan h v in
      let (candidate, changes) = plan_valid-ok previous c value now w plan h' in
      record {
        value = value;
        previous = previous;
        decoded = s;
        found = refl;
        stored = row;
        decodes = d;
        sound = sound;
        candidate = candidate;
        changes = changes;
      }

  plan_settings-ok :
      (previous : DashboardSettings) (now : ℤ) (value : Option Json) (db : Db F) (w : World (Db F))
      (plan : ImportPlan)
      → settings_of_row db.app_settings ≡ ok previous
      → (plan_settings decode encode previous
          (unwrap_or no_pressure db.disk_pressure)
          now
          value
          w).0
        ≡ ok plan
      → plan.valid ≡ true
      → IsPlanned decode db value plan
  unfolding plan_settings invalid_plan
  plan_settings-ok previous now none db w plan row h v = absurd (ground arith)
  plan_settings-ok previous now (some value) db w plan row h v =
      plan_candidate-ok previous now value db w plan
        (from_document (document_from decode value) (some previous)) row refl h v

  -- the plan, after the settings are read
  pressed_plan : Option Json → ℤ → DashboardSettings → Exec (Db F) ImportPlan
  pressed_plan value now previous = query (λ db. db.disk_pressure) >>= λ stored.
      plan_settings decode encode previous (unwrap_or no_pressure stored) now value

  query-ok :
      {A : Type 0} (f : Db F → A) (w : World (Db F)) (a : A) → (query f w).0 ≡ ok a → f w.db ≡ a
  query-ok f w a h = ground arith

  plan_envelope-ok :
      (envelope : Members) (now : ℤ) (w : World (Db F)) (plan : ImportPlan)
      → (plan_envelope decode encode envelope now w).0 ≡ ok plan
      → plan.valid ≡ true
      → IsPlanned decode w.db (get envelope (codes "settings")) plan
  unfolding plan_envelope pressed_plan
  plan_envelope-ok envelope now w plan h v =
      let value = get envelope (codes "settings") in
      let (_, h') =
        if_none-valid (validate_envelope envelope) (get_settings_on >>= pressed_plan value now) w
          plan h v in
      let (previous, hp, k, _) = >>=-eq-ok get_settings_on (pressed_plan value now) w plan h' in
      let (row, same) = get_settings_on-ok previous w hp in
      let u = (get_settings_on w).1 in
      let (stored, hs, k', _) =
        >>=-eq-ok (query (λ db. db.disk_pressure))
          (λ stored. plan_settings decode encode previous (unwrap_or no_pressure stored) now value)
          u plan k in
      let pressure : w.db.disk_pressure ≡ stored =
        ap (λ db. db.disk_pressure) (sym same) ∙ query-ok (λ db. db.disk_pressure) u stored hs in
      let u' = (query (λ db. db.disk_pressure) u).1 in
      plan_settings-ok previous now value w.db u' plan row
        (subst
          (λ p.
            (plan_settings decode encode previous (unwrap_or no_pressure p) now value u').0
            ≡ ok plan)
          (sym pressure) k')
        v

  plan_object-ok :
      (now : ℤ) (o : Option Members) (document : Json) (w : World (Db F)) (plan : ImportPlan)
      → as_object document ≡ o
      → (plan_object decode encode now o w).0 ≡ ok plan
      → plan.valid ≡ true
      → IsPlanned decode w.db (get_in document (codes "settings")) plan
  unfolding plan_object invalid_plan
  plan_object-ok now none document w plan o h v = absurd (ground arith)
  plan_object-ok now (some envelope) document w plan o h v =
      subst (λ value. IsPlanned decode w.db value plan) (sym (get_in-as_object document envelope o))
        (plan_envelope-ok envelope now w plan h v)

  pub plan_import-ok :
      (document : Json) (now : ℤ) (w : World (Db F)) (plan : ImportPlan)
      → (plan_import decode encode document now w).0 ≡ ok plan
      → plan.valid ≡ true
      → IsPlanned decode w.db (get_in document (codes "settings")) plan
  unfolding plan_import
  plan_import-ok document now w plan h v =
      plan_object-ok now (as_object document) document w plan refl h v

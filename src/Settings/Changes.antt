-- ===== src/Settings/Changes.antt =====
-- `changed_keys` of lib.rs: the names of the settings in which two settings records differ. The two
-- legacy mirrors are not compared.
use native.Mathlib.Decide.{ℕ_discrete}
use mathlib.Core.Logic.Dec
use mathlib.Core.Bool.{Bool-discrete}
use text.Mathlib.Text
use text.Mathlib.TextEquality.{eq_iff}
use tinytop.Prelude.{◌≡◌, ◌∙◌, ap, ◌↔◌, refl, true, List, [], ◌∷◌, String, arith, concat, All}
use tinytop.Prelude.Int.{ℤ, saturating_mul}
use tinytop.Prelude.Text.{Text}
use tinytop.Retention.Defs.{RetentionLadder}
use tinytop.Settings.Otel.{OtelSettings}
use tinytop.Settings.Thermal.{ThermalSettings}
use tinytop.Settings.Dashboard.{
  DashboardSettings, DashboardThresholds, DashboardSections, normalize_legacy_mirrors,
}

-- `==` on the parts of the settings: the derived equality
String-discrete : Discrete String
String-discrete s t = Dec.of_iff (eq_iff s t) (Bool-discrete (Text.◌==◌ s t) true)

ℤ-discrete : Discrete ℤ
ℤ-discrete = hlevel ℕ_discrete

Text-discrete : Discrete Text
Text-discrete = hlevel ℕ_discrete

RetentionLadder-discrete : Discrete RetentionLadder
RetentionLadder-discrete = hlevel (ℕ_discrete, String-discrete)

unfoldable pub OtelSettings-discrete : Discrete OtelSettings
OtelSettings-discrete = hlevel ℕ_discrete

ThermalSettings-discrete : Discrete ThermalSettings
ThermalSettings-discrete = hlevel ℕ_discrete

DashboardThresholds-discrete : Discrete DashboardThresholds
DashboardThresholds-discrete = hlevel ℕ_discrete

DashboardSections-discrete : Discrete DashboardSections
DashboardSections-discrete = hlevel

-- `if previous.field != next.field { changed.push(name) }`
unfoldable pub note_change : {A : Type 0} → Discrete A → String → A → A → List String
note_change eq name a b = elim (eq a b) [ yes _ ↦ [] | no _ ↦ name ∷ [] ]

-- the comparisons, in the order of the source
unfoldable pub differences : DashboardSettings → DashboardSettings → List (List String)
unfolding note_change String-discrete ℤ-discrete Text-discrete RetentionLadder-discrete
    OtelSettings-discrete ThermalSettings-discrete DashboardThresholds-discrete
    DashboardSections-discrete
differences previous next =
    note_change Text-discrete "defaultTheme" previous.default_theme next.default_theme
    ∷ note_change Text-discrete "defaultGraphMode" previous.default_graph_mode
        next.default_graph_mode
    ∷ note_change ℤ-discrete "pollIntervalMs" previous.poll_interval_ms next.poll_interval_ms
    ∷ note_change Text-discrete "defaultHistoryWindow" previous.default_history_window
        next.default_history_window
    ∷ note_change RetentionLadder-discrete "retentionLadder" previous.retention_ladder
        next.retention_ladder
    ∷ note_change OtelSettings-discrete "otel" previous.otel next.otel
    ∷ note_change ThermalSettings-discrete "thermal" previous.thermal next.thermal
    ∷ note_change ℤ-discrete "targetDatabaseBytes" previous.target_database_bytes
        next.target_database_bytes
    ∷ note_change ℤ-discrete "topProcessCount" previous.top_process_count next.top_process_count
    ∷ note_change Bool-discrete "redactionDefault" previous.redaction_default next.redaction_default
    ∷ note_change DashboardThresholds-discrete "thresholds" previous.thresholds next.thresholds
    ∷ note_change DashboardSections-discrete "enabledSections" previous.enabled_sections
        next.enabled_sections
    ∷ []

unfoldable pub changed_keys : DashboardSettings → DashboardSettings → List String
unfolding differences
changed_keys previous next = concat (differences previous next)

module _ {A : Type 0} (eq : Discrete A) (name : String) (a b : A) where
  note_change-nil : note_change eq name a b ≡ [] → a ≡ b
  unfolding note_change
  note_change-nil h = elim (eq a b) [ yes e ↦ e | no n ↦ ground arith ]

concat-nil : {A : Type 0} (xss : List (List A)) → concat xss ≡ [] → All (λ xs. xs ≡ []) xss
concat-nil [] h = tt
concat-nil ([] ∷ xss) h = (refl, concat-nil xss h)
concat-nil ((x ∷ xs) ∷ xss) h = cc

note_change_self :
    {A : Type 0} (eq : Discrete A) (name : String) (a : A) → note_change eq name a a ≡ []
unfolding note_change
note_change_self eq name a = elim (eq a a) [ yes e ↦ ground arith | no n ↦ absurd (n refl) ]

pub changed_keys_self : (s : DashboardSettings) → changed_keys s s ≡ []
unfolding changed_keys
changed_keys_self s = simp note_change_self

-- settings with the same compared fields, once their mirrors are set
normalized_equal :
    (p n : DashboardSettings)
    → All (λ xs. xs ≡ []) (differences p n)
    → normalize_legacy_mirrors p ≡ normalize_legacy_mirrors n
unfolding differences normalize_legacy_mirrors
normalized_equal p n h =
    let ladder : p.retention_ladder ≡ n.retention_ladder =
      note_change-nil RetentionLadder-discrete "retentionLadder" p.retention_ladder
        n.retention_ladder h.1.1.1.1.0 in
    λ i. record {
      default_theme =
          note_change-nil Text-discrete "defaultTheme" p.default_theme n.default_theme h.0 i;
      default_graph_mode =
          note_change-nil Text-discrete "defaultGraphMode" p.default_graph_mode n.default_graph_mode
            h.1.0 i;
      poll_interval_ms =
          note_change-nil ℤ-discrete "pollIntervalMs" p.poll_interval_ms n.poll_interval_ms h.1.1.0
            i;
      default_history_window =
          note_change-nil Text-discrete "defaultHistoryWindow" p.default_history_window
            n.default_history_window h.1.1.1.0 i;
      retention_ladder = ladder i;
      otel = note_change-nil OtelSettings-discrete "otel" p.otel n.otel h.1.1.1.1.1.0 i;
      thermal =
          note_change-nil ThermalSettings-discrete "thermal" p.thermal n.thermal h.1.1.1.1.1.1.0 i;
      target_database_bytes =
          note_change-nil ℤ-discrete "targetDatabaseBytes" p.target_database_bytes
            n.target_database_bytes h.1.1.1.1.1.1.1.0 i;
      top_process_count =
          note_change-nil ℤ-discrete "topProcessCount" p.top_process_count n.top_process_count
            h.1.1.1.1.1.1.1.1.0 i;
      redaction_default =
          note_change-nil Bool-discrete "redactionDefault" p.redaction_default n.redaction_default
            h.1.1.1.1.1.1.1.1.1.0 i;
      thresholds =
          note_change-nil DashboardThresholds-discrete "thresholds" p.thresholds n.thresholds
            h.1.1.1.1.1.1.1.1.1.1.0 i;
      enabled_sections =
          note_change-nil DashboardSections-discrete "enabledSections" p.enabled_sections
            n.enabled_sections h.1.1.1.1.1.1.1.1.1.1.1.0 i;
      retention_hours = saturating_mul (ladder i).l1.keep_days 24;
      rollup_retention_days = (ladder i).l2.keep_days;
    }

-- Two settings whose legacy mirrors are those of their ladders differ in no key that is reported
-- exactly if they are the same settings.
changed_keys-nil :
    (previous next : DashboardSettings)
    → (changed_keys (normalize_legacy_mirrors previous) (normalize_legacy_mirrors next) ≡ [])
      ↔ (normalize_legacy_mirrors previous ≡ normalize_legacy_mirrors next)
unfolding changed_keys normalize_legacy_mirrors differences
changed_keys-nil previous next = (
  (λ h. normalized_equal previous next (concat-nil (differences previous next) h)),
  (λ e.
      ap (λ s. changed_keys s (normalize_legacy_mirrors next)) e
      ∙ changed_keys_self (normalize_legacy_mirrors next)),
)

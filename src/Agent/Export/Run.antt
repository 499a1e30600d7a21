-- ===== src/Agent/Export/Run.antt =====
-- What a run of the export loop may do: attempts and warnings keep their distance, and an export uses a
-- pipeline that was built with the settings of its iteration.
use tinytop.Prelude.{
  ◌≡◌, ◌≢◌, refl, ap, Bool, true, false, Option, none, some, List, [], ◌∷◌, Bool-cases, inl, inr,
}
use mathlib.Core.Path.{subst}
use mathlib.Core.List.{append-nil}
use tinytop.Settings.Otel.{OtelSettings}
use tinytop.Settings.Changes.{OtelSettings-discrete}
use tinytop.Agent.Export.{
  same_settings, observe, OtelStatus, LoopState, Turn, Done, observed_turn, clamp_interval,
  settings_turn, turn, run, initial,
}
use tinytop.Agent.Export.Allowed.{Allowed, view, Current, Follows, then-Follows, some-injective}
use tinytop.Agent.Export.Steps.{Observes, clocked-Follows}

observed_turn-Follows :
    (t : Turn) (q : OtelSettings) (s : LoopState)
    → Observes q s
    → Current s
    → Follows s (observed_turn t q s)
unfolding observed_turn
observed_turn-Follows t q s o c = elim (Bool-cases q.enabled) [
  | inl on ↦ rw on (clocked-Follows q on t t.clock s o c)
  | inr off ↦ rw off record { allowed = λ rest h. h; current = tt }
]

same-Observes :
    (observed : Option OtelSettings) (q : OtelSettings)
    → same_settings observed q ≡ true
    → observed ≡ some q
unfolding same_settings
same-Observes none q h = cc
same-Observes (some p) q h = same-eq (OtelSettings-discrete p q) h
  where
    same-eq :
        (d : Dec (p ≡ q))
        → (elim d as (λ _. Bool) [ yes _ ↦ true | no _ ↦ false ]) ≡ true
        → some p ≡ some q
    same-eq (yes e) h = ap (λ r. some r) e
    same-eq (no n) h = cc

other-Observes :
    (observed : Option OtelSettings) (q : OtelSettings)
    → same_settings observed q ≡ false
    → observed ≢ some q
unfolding same_settings
other-Observes none q h e = cc
other-Observes (some p) q h e = differ (OtelSettings-discrete p q) h
  where
    differ : (d : Dec (p ≡ q)) → (elim d as (λ _. Bool) [ yes _ ↦ true | no _ ↦ false ]) ≡ false → ⊥
    differ (yes e') k = cc
    differ (no n) k = n (some-injective e)

settings_turn-Follows :
    (t : Turn) (q : OtelSettings) (s : LoopState) → Current s → Follows s (settings_turn t q s)
unfolding settings_turn observe
settings_turn-Follows t q s c = elim (Bool-cases (same_settings s.schedule.observed_settings q)) [
  | inl e ↦ rw e (observed_turn-Follows t q s (same-Observes s.schedule.observed_settings q e) c)
  | inr e ↦
      let f =
        observed_turn-Follows t q record s { pipeline = none; schedule = observe q } refl tt in
      rw e record {
        allowed = λ rest h. (other-Observes s.schedule.observed_settings q e, f.allowed rest h);
        current = f.current;
      }
]

turn-Follows : (t : Turn) (s : LoopState) → Current s → Follows s (turn t s)
unfolding turn
turn-Follows t s c = read t.stored_settings
  where
    read :
        (stored : Option OtelSettings)
        → Follows s (elim stored as (λ _. Done) [
          | none ↦ (s, [])
          | some q ↦ settings_turn t (clamp_interval q) s
        ])
    read none = record { allowed = λ rest h. h; current = c }
    read (some q) = settings_turn-Follows t (clamp_interval q) s c

run-Follows : (ts : List Turn) (s : LoopState) → Current s → Follows s (run ts s)
unfolding run
run-Follows [] s c = record { allowed = λ rest h. h; current = c }
run-Follows (t ∷ ts) s c =
    let f = turn-Follows t s c in
    let d = turn t s in
    let d' = run ts d.0 in then-Follows s d d'.0 d'.1 f (run-Follows ts d.0 f.current)

-- Whatever the environment answers, and however its clocks go, a run of the export loop from its start
-- does only what is allowed: settings are observed anew only when they are not those observed last; while the settings stay the same, an attempt comes at least the used
-- interval after the last attempt, unless that one built a pipeline; an export is under the settings
-- read in its iteration, which are on, and its pipeline was built with these; and a warning comes at
-- least a minute after the last one.
pub run-Allowed :
    (ts : List Turn) (status : OtelStatus)
    → Allowed (view (initial status)) (run ts (initial status)).1
unfolding initial
run-Allowed ts status =
    let f = run-Follows ts (initial status) tt in
    subst (Allowed (view (initial status))) (append-nil (run ts (initial status)).1)
      (f.allowed [] tt)

-- ===== src/Agent/Export/Allowed.antt =====
-- What the export loop may do, and that its records of failures and successes do only that.
use tinytop.Prelude.{
  ◌+◌, ◌≤◌, leb→le, ◌≡◌, ◌≢◌, Bool, true, ◌&&◌, Option, none, some, List, [], ◌∷◌, ◌++◌, Bool-cases,
  inl, inr, arith,
}
use mathlib.Core.List.{append_assoc}
use tinytop.Prelude.Text.{Text}
use tinytop.Prelude.Int.{
  ℤ, pos, pos_part, neg_part, scale, scale_pos, scale_neg, -ℤ_pos, -ℤ_neg, ◌+ℤ◌, ◌-ℤ◌, ◌≤ℤ◌, leb_ℤ,
  saturating_sub, saturate_pos, saturate_neg, int_laws, min_ℤ, max_ℤ,
}
use tinytop.Settings.Otel.{OtelSettings}
use tinytop.Agent.Export.{
  used_otel_interval_sec, interval_ms, is_past, warn_interval_ms, LoopState, Event, changed,
  attempted, built, exported, warned, recovered, record_failure, record_success, is_later, Done,
}

-- the settings that are observed, and the last attempt under them and the last warning, if any
pub record View : Type 0 where
  pub observed : Option OtelSettings
  pub last_attempt : Option ℤ
  pub last_warning : Option ℤ

abbrev pub interval_of : Option OtelSettings → ℤ
interval_of none = pos 0
interval_of (some q) = interval_ms q.interval_sec

-- so long after the last time
abbrev pub Apart : ℤ → Option ℤ → ℤ → Type 0
Apart k none t = Unit
Apart k (some last) t = last +ℤ k ≤ℤ t

-- Settings are observed anew only when they are others. Under the same settings an attempt comes an interval after the last one, unless that one built a
-- pipeline; an export is under the settings that are observed, which are on, and its pipeline was built
-- with these; and a warning comes a minute after the last one.
abbrev pub Allowed : View → List Event → Type 0
Allowed v [] = Unit
Allowed v (changed q ∷ es) =
    (v.observed ≢ some q) × Allowed record v { observed = some q; last_attempt = none } es
Allowed v (attempted t ∷ es) =
    Apart (interval_of v.observed) v.last_attempt t × Allowed record v { last_attempt = some t } es
Allowed v (built ∷ es) = Allowed record v { last_attempt = none } es
Allowed v (exported p q ∷ es) = (v.observed ≡ some q) × (q.enabled ≡ true) × (p ≡ q) × Allowed v es
Allowed v (warned t ∷ es) =
    Apart warn_interval_ms v.last_warning t × Allowed record v { last_warning = some t } es
Allowed v (recovered ∷ es) = Allowed v es

abbrev pub view : LoopState → View
view s = record {
  observed = s.schedule.observed_settings;
  last_attempt = s.schedule.last_attempt_ms;
  last_warning = s.last_warn_ms;
}

-- the pipeline was built with the settings that are observed
abbrev pub IsCurrent : Option OtelSettings → Option OtelSettings → Type 0
IsCurrent none observed = Unit
IsCurrent (some p) observed = observed ≡ some p

abbrev pub Current : LoopState → Type 0
Current s = IsCurrent s.pipeline s.schedule.observed_settings

-- what was done is allowed, whatever is allowed after it; the observed settings are the same
pub record Follows (s : LoopState) (d : Done) : Type 0 where
  pub allowed : (rest : List Event) → Allowed (view d.0) rest → Allowed (view s) (d.1 ++ rest)
  pub current : Current d.0

saturated-Apart :
    (k last now : ℤ) → pos 1 ≤ℤ k → leb_ℤ k (saturating_sub now last) ≡ true → last +ℤ k ≤ℤ now
saturated-Apart k last now lo h = omega (
  int_laws,
  -ℤ_pos now last,
  -ℤ_neg now last,
  saturate_pos (now -ℤ last),
  saturate_neg (now -ℤ last),
  leb→le (pos_part k + neg_part (saturating_sub now last))
      (pos_part (saturating_sub now last) + neg_part k) h,
)

pub is_past-Apart :
    (k : ℤ) (last : Option ℤ) (now : ℤ) → pos 1 ≤ℤ k → is_past k last now ≡ true → Apart k last now
unfolding is_past
is_past-Apart k none now lo h = tt
is_past-Apart k (some last) now lo h = saturated-Apart k last now lo h

used_bounds :
    (i : ℤ)
    → (5 ≤ pos_part (used_otel_interval_sec i))
      × (pos_part (used_otel_interval_sec i) ≤ 3_600)
      × (neg_part (used_otel_interval_sec i) ≡ 0)
unfolding used_otel_interval_sec min_ℤ max_ℤ
used_bounds i = ground arith

pub interval_pos : (i : ℤ) → pos 1 ≤ℤ interval_ms i
unfolding interval_ms
interval_pos i =
    let n = used_otel_interval_sec i in
    omega (
      arith,
      used_bounds i,
      scale_pos n 1_000,
      scale_neg n 1_000,
      saturate_pos (scale n 1_000),
      saturate_neg (scale n 1_000),
    )

pub failure-Follows :
    (now : ℤ) (error : Text) (s : LoopState) → Current s → Follows s (record_failure now error s)
unfolding record_failure
failure-Follows now error s c = elim (Bool-cases (is_past warn_interval_ms s.last_warn_ms now)) [
  | inl e ↦ rw e record {
    allowed = λ rest h. (is_past-Apart warn_interval_ms s.last_warn_ms now (omega arith) e, h);
    current = c;
  }
  | inr e ↦ rw e record { allowed = λ rest h. h; current = c }
]

pub success-Follows : (now : ℤ) (s : LoopState) → Current s → Follows s (record_success now s)
unfolding record_success
success-Follows now s c =
    elim (Bool-cases (is_later s.status.last_failure_ms s.status.last_success_ms)) [
      | inl e ↦ rw e record { allowed = λ rest h. h; current = c }
      | inr e ↦ rw e record { allowed = λ rest h. h; current = c }
    ]

pub some-injective : {A : Type 0} {a b : A} → some a ≡ some b → a ≡ b
some-injective e = cc

pub first : (a b : Bool) → (a && b) ≡ true → a ≡ true
first a b h = ground (arith, h)

pub middle : (a b c : Bool) → (a && b && c) ≡ true → b ≡ true
middle a b c h = ground (arith, h)

-- one after the other
pub then-Follows :
    (s : LoopState) (d : Done) (s'' : LoopState) (es : List Event)
    → Follows s d
    → Follows d.0 (s'', es)
    → Follows s (s'', d.1 ++ es)
then-Follows s d s'' es f g = record {
  allowed = λ rest h. rw (append_assoc d.1 es rest) (f.allowed (es ++ rest) (g.allowed rest h));
  current = g.current;
}

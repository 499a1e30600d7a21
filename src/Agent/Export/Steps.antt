-- ===== src/Agent/Export/Steps.antt =====
-- The parts of an iteration under settings that are on do only what is allowed.
use tinytop.Prelude.{
  ◌≡◌, ◌∙◌, refl, sym, true, not, ◌&&◌, Option, none, some, [], ◌∷◌, Bool-cases, inl, inr, is_some,
  unwrap_or, arith,
}
use mathlib.Core.Path.{subst}
use tinytop.Prelude.Text.{Text}
use tinytop.Prelude.Int.{ℤ}
use tinytop.Settings.Otel.{OtelSettings}
use tinytop.Agent.Export.{
  interval_ms, is_due, mark_attempt, make_immediately_due, LoopState, attempted, exported,
  record_failure, Turn, Done, finish_build, mark, try_build, finish_export, export_with, try_export,
  export_turn, mark_enabled,
}
use tinytop.Agent.Export.Allowed.{
  interval_of, Apart, IsCurrent, Current, Follows, is_past-Apart, interval_pos, failure-Follows,
  success-Follows, some-injective, first, middle, then-Follows,
}

-- the observed settings stay
abbrev pub Observes : OtelSettings → LoopState → Type 0
Observes q s = s.schedule.observed_settings ≡ some q

module _ (q : OtelSettings) (on : q.enabled ≡ true) where
  built-Follows :
      (now : ℤ) (error : Option Text) (s : LoopState)
      → Observes q s
      → Current s
      → Follows s (finish_build q now error s)
  unfolding finish_build make_immediately_due
  built-Follows now none s o c = record { allowed = λ rest h. h; current = o }
  built-Follows now (some error) s o c = failure-Follows now error s c

  finish_build-Observes :
      (now : ℤ) (error : Option Text) (s : LoopState)
      → Observes q s
      → Observes q (finish_build q now error s).0
  unfolding finish_build make_immediately_due record_failure
  finish_build-Observes now none s o = o
  finish_build-Observes now (some error) s o = ground (arith, o)

  due-Apart :
      (s : LoopState) (now : ℤ)
      → Observes q s
      → is_due s.schedule now q.interval_sec ≡ true
      → Apart (interval_of s.schedule.observed_settings) s.schedule.last_attempt_ms now
  unfolding is_due
  due-Apart s now o h =
      subst (λ u. Apart (interval_of u) s.schedule.last_attempt_ms now) (sym o)
        (is_past-Apart (interval_ms q.interval_sec) s.schedule.last_attempt_ms now
          (interval_pos q.interval_sec) h)

  marked-Follows :
      (now : ℤ) (s : LoopState) (d : Done)
      → Observes q s
      → Apart (interval_of s.schedule.observed_settings) s.schedule.last_attempt_ms now
      → Follows (mark now s) d
      → Follows s (d.0, attempted now ∷ d.1)
  unfolding mark mark_attempt
  marked-Follows now s d o a f = record {
    allowed = λ rest h. (a, f.allowed rest h);
    current = f.current;
  }

  try_build-Follows :
      (t : Turn) (now : ℤ) (s : LoopState)
      → Observes q s
      → Current s
      → Follows s (try_build t q now s) × Observes q (try_build t q now s).0
  unfolding try_build
  try_build-Follows t now s o c =
      let due = is_due s.schedule now q.interval_sec in
      elim (Bool-cases (not (is_some s.pipeline) && due && t.has_snapshot)) [
        | inl e ↦ rw e (
          marked-Follows now s (finish_build q now t.build_error (mark now s)) o
              (due-Apart s now o (middle (not (is_some s.pipeline)) due t.has_snapshot e))
              (built-Follows now t.build_error (mark now s) o c),
          finish_build-Observes now t.build_error (mark now s) o,
        )
        | inr e ↦ rw e (record { allowed = λ rest h. h; current = c }, o)
      ]

  finish_export-Follows :
      (now : ℤ) (error : Option Text) (s : LoopState)
      → Current s
      → Follows s (finish_export now error s)
  unfolding finish_export
  finish_export-Follows now none s c = success-Follows now s c
  finish_export-Follows now (some error) s c = failure-Follows now error s c

  -- an export of the pipeline that is there
  exported-Follows :
      (p : OtelSettings) (s : LoopState) (d : Done)
      → p ≡ q
      → Observes q s
      → Follows s d
      → Follows s (d.0, exported p q ∷ d.1)
  exported-Follows p s d e o f = record {
    allowed = λ rest h. (o, on, e, f.allowed rest h);
    current = f.current;
  }

  same_pipeline :
      (p : OtelSettings) (observed : Option OtelSettings)
      → observed ≡ some p
      → observed ≡ some q
      → p ≡ q
  same_pipeline p observed e o = some-injective (sym e ∙ o)

  export_with-Follows :
      (pipeline : Option OtelSettings) (t : Turn) (now : ℤ) (s : LoopState)
      → s.pipeline ≡ pipeline
      → Observes q s
      → Current s
      → is_due s.schedule now q.interval_sec ≡ true
      → Follows s (export_with pipeline t q now s)
  unfolding export_with
  export_with-Follows none t now s e o c due = record { allowed = λ rest h. h; current = c }
  export_with-Follows (some p) t now s e o c due =
      let then_at = unwrap_or now t.completed_clock in
      let d = finish_export then_at t.export_error (mark now s) in
      marked-Follows now s (d.0, exported p q ∷ d.1) o (due-Apart s now o due)
        (exported-Follows p (mark now s) d
          (same_pipeline p s.schedule.observed_settings
            (subst (λ u. IsCurrent u s.schedule.observed_settings) e c) o)
          o (finish_export-Follows then_at t.export_error (mark now s) c))

  try_export-Follows :
      (t : Turn) (now : ℤ) (s : LoopState)
      → Observes q s
      → Current s
      → Follows s (try_export t q now s)
  unfolding try_export
  try_export-Follows t now s o c =
      let due = is_due s.schedule now q.interval_sec in
      elim (Bool-cases (due && t.still_has_snapshot)) [
        | inl e ↦
            rw e
              (export_with-Follows s.pipeline t now s refl o c (first due t.still_has_snapshot e))
        | inr e ↦ rw e record { allowed = λ rest h. h; current = c }
      ]

  export_turn-Follows :
      (t : Turn) (now : ℤ) (s : LoopState)
      → Observes q s
      → Current s
      → Follows s (export_turn t q now s)
  unfolding export_turn
  export_turn-Follows t now s o c =
      let (f, o') = try_build-Follows t now s o c in
      let d = try_build t q now s in
      let g = try_export-Follows t (unwrap_or now t.second_clock) d.0 o' f.current in
      let d' = try_export t q (unwrap_or now t.second_clock) d.0 in then-Follows s d d'.0 d'.1 f g

  -- with the status of settings that are on
  pub clocked-Follows :
      (t : Turn) (clock : Option ℤ) (s : LoopState)
      → Observes q s
      → Current s
      → Follows s (elim clock as (λ _. Done) [
        | none ↦ (record s { status = mark_enabled q s.status }, [])
        | some now ↦ export_turn t q now record s { status = mark_enabled q s.status }
      ])
  clocked-Follows t none s o c = record { allowed = λ rest h. h; current = c }
  clocked-Follows t (some now) s o c =
      let f = export_turn-Follows t now record s { status = mark_enabled q s.status } o c in
      record { allowed = f.allowed; current = f.current }

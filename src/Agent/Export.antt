-- ===== src/Agent/Export.antt =====
-- The loop of the OpenTelemetry export: `OtelSchedule` and `spawn_otel_export_loop` of writer.rs, and
-- the status that otel.rs keeps. What the environment answers in an iteration is a `Turn`.
pub mod Allowed
mod Steps
pub mod Run
use tinytop.Prelude.{
  ℕ, min, ◌+◌, Bool, true, false, not, ◌&&◌, Option, none, some, List, [], ◌∷◌, ◌++◌, map, take,
  is_some, if◌then◌else◌, unwrap_or, ltb,
}
use tinytop.Prelude.Text.{Text, is_control}
use tinytop.Prelude.Int.{ℤ, pos, leb_ℤ, ltb_ℤ, min_ℤ, max_ℤ, saturating_sub, saturating_mul}
use tinytop.Settings.Otel.{OtelSettings}
use tinytop.Settings.Changes.{OtelSettings-discrete}

pub record OtelSchedule : Type 0 where
  pub observed_settings : Option OtelSettings
  pub last_attempt_ms : Option ℤ

unfoldable pub same_settings : Option OtelSettings → OtelSettings → Bool
unfolding OtelSettings-discrete
same_settings none settings = false
same_settings (some observed) settings = elim (OtelSettings-discrete observed settings) [
  | yes _ ↦ true
  | no _ ↦ false
]

-- `OtelSchedule::observe` where the settings have changed
unfoldable pub observe : OtelSettings → OtelSchedule
observe settings = record { observed_settings = some settings; last_attempt_ms = none }

unfoldable pub used_otel_interval_sec : ℤ → ℤ
used_otel_interval_sec stored = min_ℤ (max_ℤ stored (pos 5)) (pos 3_600)

unfoldable pub interval_ms : ℤ → ℤ
unfolding used_otel_interval_sec
interval_ms interval_sec = saturating_mul (used_otel_interval_sec interval_sec) 1_000

-- `none` or long enough ago
unfoldable pub is_past : ℤ → Option ℤ → ℤ → Bool
is_past length none now = true
is_past length (some last) now = leb_ℤ length (saturating_sub now last)

unfoldable pub is_due : OtelSchedule → ℤ → ℤ → Bool
unfolding interval_ms is_past
is_due s now interval_sec = is_past (interval_ms interval_sec) s.last_attempt_ms now

unfoldable pub mark_attempt : ℤ → OtelSchedule → OtelSchedule
mark_attempt now s = record s { last_attempt_ms = some now }

unfoldable pub make_immediately_due : OtelSchedule → OtelSchedule
make_immediately_due s = record s { last_attempt_ms = none }

pub record OtelStatus : Type 0 where
  pub enabled : Bool
  pub endpoint : Text
  pub interval_sec : ℤ
  pub last_success_ms : Option ℤ
  pub last_failure_ms : Option ℤ
  pub failures : ℕ
  pub last_error : Option Text

-- `OtelStatus::new` and `OtelStatus::from_settings`
unfoldable pub from_settings : OtelSettings → OtelStatus
from_settings settings = record {
  enabled = settings.enabled;
  endpoint = settings.endpoint;
  interval_sec = settings.interval_sec;
  last_success_ms = none;
  last_failure_ms = none;
  failures = 0;
  last_error = none;
}

abbrev pub warn_interval_ms : ℤ
warn_interval_ms = pos 60_000

abbrev pub max_error_chars : ℕ
max_error_chars = 200

unfoldable pub sanitize_error : Text → Text
sanitize_error error = take max_error_chars (map (λ c. if is_control c then b' ' else c) error)

-- the counter is a `u64`
abbrev u64_max : ℕ
u64_max = 18446744073709551615

pub record LoopState : Type 0 where
  -- the settings that the pipeline was built with
  pub pipeline : Option OtelSettings
  pub schedule : OtelSchedule
  pub last_warn_ms : Option ℤ
  pub status : OtelStatus

-- what an iteration does that can be seen from outside
pub data Event : Type 0 where
  -- other settings are observed
  changed : OtelSettings → Event
  -- `mark_attempt`
  attempted : ℤ → Event
  -- a pipeline was built
  built : Event
  -- the pipeline that was built with the first settings exports under the second ones
  exported : OtelSettings → OtelSettings → Event
  warned : ℤ → Event
  recovered : Event

unfoldable pub record_failure : ℤ → Text → LoopState → LoopState × List Event
unfolding sanitize_error is_past
record_failure now error s =
    let status = record s.status {
      last_failure_ms = some now;
      failures = min (s.status.failures + 1) u64_max;
      last_error = some (sanitize_error error);
    } in
    if is_past warn_interval_ms s.last_warn_ms now
    then (record s { status = status; last_warn_ms = some now }, warned now ∷ [])
    else (record s { status = status }, [])

abbrev pub is_later : Option ℤ → Option ℤ → Bool
is_later none success = false
is_later (some failure) none = true
is_later (some failure) (some success) = ltb_ℤ success failure

unfoldable pub record_success : ℤ → LoopState → LoopState × List Event
record_success now s = (
  record s { status = record s.status { last_success_ms = some now } },
  if is_later s.status.last_failure_ms s.status.last_success_ms then recovered ∷ [] else [],
)

unfoldable pub mark_disabled : OtelSettings → OtelStatus → OtelStatus
mark_disabled settings status = record status {
  enabled = false;
  endpoint = settings.endpoint;
  interval_sec = settings.interval_sec;
}

unfoldable pub mark_enabled : OtelSettings → OtelStatus → OtelStatus
mark_enabled settings status = record status {
  enabled = true;
  endpoint = settings.endpoint;
  interval_sec = settings.interval_sec;
}

-- the answers of one iteration; no text is a success
pub record Turn : Type 0 where
  pub stored_settings : Option OtelSettings
  pub clock : Option ℤ
  pub has_snapshot : Bool
  pub build_error : Option Text
  pub second_clock : Option ℤ
  pub still_has_snapshot : Bool
  pub export_error : Option Text
  pub completed_clock : Option ℤ

abbrev pub Done : Type 0
Done = LoopState × List Event

unfoldable pub finish_build : OtelSettings → ℤ → Option Text → LoopState → Done
unfolding make_immediately_due record_failure
finish_build settings now none s =
    (record s { pipeline = some settings; schedule = make_immediately_due s.schedule }, built ∷ [])
finish_build settings now (some error) s = record_failure now error s

unfoldable pub mark : ℤ → LoopState → LoopState
unfolding mark_attempt
mark now s = record s { schedule = mark_attempt now s.schedule }

unfoldable pub try_build : Turn → OtelSettings → ℤ → LoopState → Done
unfolding is_due mark finish_build
try_build t settings now s =
    if not (is_some s.pipeline) && is_due s.schedule now settings.interval_sec && t.has_snapshot
    then (let (s', es) = finish_build settings now t.build_error (mark now s) in
        (s', attempted now ∷ es))
    else (s, [])

unfoldable pub finish_export : ℤ → Option Text → LoopState → Done
unfolding record_failure record_success
finish_export now none s = record_success now s
finish_export now (some error) s = record_failure now error s

unfoldable pub export_with : Option OtelSettings → Turn → OtelSettings → ℤ → LoopState → Done
unfolding finish_export mark
export_with none t settings now s = (s, [])
export_with (some current) t settings now s =
    let (s', es) = finish_export (unwrap_or now t.completed_clock) t.export_error (mark now s) in
    (s', attempted now ∷ exported current settings ∷ es)

unfoldable pub try_export : Turn → OtelSettings → ℤ → LoopState → Done
unfolding is_due export_with
try_export t settings now s =
    if is_due s.schedule now settings.interval_sec && t.still_has_snapshot
    then export_with s.pipeline t settings now s
    else (s, [])

unfoldable pub export_turn : Turn → OtelSettings → ℤ → LoopState → Done
unfolding try_build try_export
export_turn t settings now s =
    let (s', es) = try_build t settings now s in
    let (s'', es') = try_export t settings (unwrap_or now t.second_clock) s' in (s'', es ++ es')

-- an iteration after the settings are observed
unfoldable pub observed_turn : Turn → OtelSettings → LoopState → Done
unfolding mark_disabled mark_enabled export_turn
observed_turn t settings s =
    if not settings.enabled
    then (record s { pipeline = none; status = mark_disabled settings s.status }, [])
    else (let s' = record s { status = mark_enabled settings s.status } in
        elim t.clock [ none ↦ (s', []) | some now ↦ export_turn t settings now s' ])

unfoldable pub clamp_interval : OtelSettings → OtelSettings
unfolding used_otel_interval_sec
clamp_interval stored = record stored { interval_sec = used_otel_interval_sec stored.interval_sec }

unfoldable pub settings_turn : Turn → OtelSettings → LoopState → Done
unfolding same_settings observe observed_turn
settings_turn t settings s =
    if same_settings s.schedule.observed_settings settings
    then observed_turn t settings s
    else (let (s', es) =
          observed_turn t settings (record s { pipeline = none; schedule = observe settings }) in
        (s', changed settings ∷ es))

unfoldable pub turn : Turn → LoopState → Done
unfolding clamp_interval settings_turn
turn t s = elim t.stored_settings [
  | none ↦ (s, [])
  | some stored ↦ settings_turn t (clamp_interval stored) s
]

-- the iterations one after the other, with all that they do
unfoldable pub run : List Turn → LoopState → Done
unfolding turn
run [] s = (s, [])
run (t ∷ ts) s = let (s', es) = turn t s in let (s'', es') = run ts s' in (s'', es ++ es')

-- the state in which the loop begins
unfoldable pub initial : OtelStatus → LoopState
initial status = record {
  pipeline = none;
  schedule = record { observed_settings = none; last_attempt_ms = none };
  last_warn_ms = none;
  status = status;
}

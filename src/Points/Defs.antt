-- ===== src/Points/Defs.antt =====
-- The definitions of lib.rs that choose where history points are read.
use tinytop.Prelude.{
  ℕ, Bool, true, false, ◌&&◌, ◌||◌, Option, none, some, List, [], ◌∷◌, if◌then◌else◌, unwrap_or,
}
use tinytop.Prelude.Int.{
  ℤ, pos, pos_part, eqb_ℤ, leb_ℤ, min_ℤ, max_ℤ, div_euclid, saturating_add, saturating_sub,
  saturating_mul,
}
use tinytop.Retention.Defs.{RetentionLadder, day_ms}
use tinytop.Tiers.Defs.{l2, l3, l4, resolution_ms}

pub data HistoryPointMode : Type 0 where
  auto raw rollup rollup_5m rollup_1h archive : HistoryPointMode

pub record HistoryPointsQuery : Type 0 where
  pub since_ms : Option ℤ
  pub until_ms : Option ℤ
  pub limit : Option ℤ
  pub source : HistoryPointMode

-- `limit.clamp(1, 10_000)`, or the most
unfoldable pub effective_points_limit : HistoryPointsQuery → ℤ
effective_points_limit query = elim query.limit [
  | none ↦ pos 10_000
  | some limit ↦ min_ℤ (max_ℤ limit (pos 1)) (pos 10_000)
]

pub record Candidate : Type 0 where
  pub source : HistoryPointMode
  pub keep_days : ℤ
  pub enabled : Bool
  pub fixed_resolution_ms : ℕ

-- finest first
abbrev pub candidates : RetentionLadder → ℤ → List Candidate
candidates ladder poll_interval_ms =
    record {
      source = raw;
      keep_days = ladder.l1.keep_days;
      enabled = true;
      fixed_resolution_ms = pos_part (max_ℤ poll_interval_ms (pos 1));
    }
    ∷ record {
      source = rollup;
      keep_days = ladder.l2.keep_days;
      enabled = true;
      fixed_resolution_ms = resolution_ms l2;
    }
    ∷ record {
      source = rollup_5m;
      keep_days = ladder.l3.keep_days;
      enabled = ladder.l3.enabled;
      fixed_resolution_ms = resolution_ms l3;
    }
    ∷ record {
      source = rollup_1h;
      keep_days = ladder.l4.keep_days;
      enabled = ladder.l4.enabled;
      fixed_resolution_ms = resolution_ms l4;
    }
    ∷ []

unfoldable pub is_rollup_1h : HistoryPointMode → Bool
is_rollup_1h rollup_1h = true
is_rollup_1h _ = false

-- the candidate is enabled, and keeps the start of the range; zero days of L4 are for ever
unfoldable pub holds_start : ℤ → ℤ → Candidate → Bool
unfolding is_rollup_1h
holds_start now_ms since_ms c =
    c.enabled
    && (is_rollup_1h c.source && eqb_ℤ c.keep_days (pos 0)
        || leb_ℤ (saturating_sub now_ms (saturating_mul c.keep_days day_ms)) since_ms)

-- the range has at most `limit` points of the candidate
unfoldable pub fits : ℤ → ℤ → Candidate → Bool
fits range_ms limit c =
    leb_ℤ (saturating_add (div_euclid range_ms c.fixed_resolution_ms) (pos 1)) limit

-- what is returned when no candidate fits
unfoldable pub fallback : RetentionLadder → Option HistoryPointMode → HistoryPointMode
fallback ladder (some source) = source
fallback ladder none =
    if ladder.archive.queryable
    then archive
    else if ladder.l4.enabled
    then rollup_1h
    else if ladder.l3.enabled
    then rollup_5m
    else rollup

-- the loop over the candidates, with `coarsest_holding`
unfoldable pub choose :
    (Candidate → Bool)
    → (Candidate → Bool)
    → (Option HistoryPointMode → HistoryPointMode)
    → List Candidate
    → Option HistoryPointMode
    → HistoryPointMode
choose holds fit last [] coarsest_holding = last coarsest_holding
choose holds fit last (c ∷ cs) coarsest_holding =
    let rest = choose holds fit last cs (if holds c then some c.source else coarsest_holding) in
    if holds c && fit c then c.source else rest

unfoldable pub is_auto : HistoryPointMode → Bool
is_auto auto = true
is_auto _ = false

unfoldable pub range_of : ℤ → HistoryPointsQuery → ℤ
range_of now_ms query =
    max_ℤ (saturating_sub (unwrap_or now_ms query.until_ms) (unwrap_or now_ms query.since_ms))
      (pos 0)

unfoldable pub resolve_history_point_source_with_poll :
    RetentionLadder → ℤ → ℤ → HistoryPointsQuery → HistoryPointMode
unfolding effective_points_limit holds_start fits fallback choose is_auto range_of
resolve_history_point_source_with_poll ladder poll_interval_ms now_ms query =
    if is_auto query.source
    then choose (holds_start now_ms (unwrap_or now_ms query.since_ms))
        (fits (range_of now_ms query) (effective_points_limit query)) (fallback ladder)
        (candidates ladder poll_interval_ms) none
    else query.source

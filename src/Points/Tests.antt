-- ===== src/Points/Tests.antt =====
-- The source of one day's points, with the default settings.
use tinytop.Prelude.{refl, none, some, arith}
use tinytop.Prelude.Int.{ℤ, pos, pos_part, ◌-ℤ◌, max_ℤ}
use tinytop.Retention.Defs.{default_ladder}
use tinytop.Retention.Validity.{HasRanges}
use tinytop.Points.Defs.{HistoryPointsQuery, auto, resolve_history_point_source_with_poll}
use tinytop.Points.Spec.{Keeps, Fits, IsLeft, IsBest}
use tinytop.Points.Best.{IsLimit, start_of, end_of, resolve_history_point_source_with_poll-IsBest}

abbrev one_day : HistoryPointsQuery
one_day = record {
  since_ms = some (pos 1_000_000_000);
  until_ms = some (pos 1_086_400_000);
  limit = none;
  source = auto;
}

default-HasRanges : HasRanges default_ladder
default-HasRanges = record {
  l1 = omega arith;
  l2 = omega arith;
  l3 = omega arith;
  l4 = omega arith;
  detail = omega arith;
  process_fast = omega arith;
  cold_after = omega arith;
  interval = omega arith;
  min_free = omega arith;
}

abbrev now : ℤ
now = pos 1_086_400_000

resolve_history_point_source_with_poll-IsBest_example :
    (limit : ℤ) × IsLimit none limit
    × IsBest
        (Keeps default_ladder now (pos 1_000_000_000))
        (Fits
          (pos_part (max_ℤ (pos 2_000) (pos 1)))
          (end_of now one_day -ℤ start_of now one_day)
          limit)
        (IsLeft default_ladder)
        (resolve_history_point_source_with_poll default_ladder (pos 2_000) now one_day)
unfolding ◌-ℤ◌
resolve_history_point_source_with_poll-IsBest_example =
    resolve_history_point_source_with_poll-IsBest default_ladder (pos 2_000) now one_day refl
      default-HasRanges (omega arith) (omega arith) (omega arith)

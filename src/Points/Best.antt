-- ===== src/Points/Best.antt =====
-- The choice of the source of an automatic query is the one that the horizons and the limit make.
use tinytop.Prelude.{
  ◌*◌, ◌/◌, ◌<◌, ◌≡◌, ◌↔◌, refl, ◌⊎◌, inl, inr, Option, none, some, unwrap_or, arith, Bool-cases,
}
use native.Mathlib.Nat.{div-lt_iff_lt-mul}
use tinytop.Prelude.Int.{
  ℤ, pos, negsuc, pos_part, ◌≤ℤ◌, ◌<ℤ◌, ◌+ℤ◌, ◌-ℤ◌, scale, max_ℤ, min_ℤ, IsI64, int_laws, leb_ℤ,
  saturating_sub, saturating_mul, div_euclid, eqb_ℤ, saturate,
}
use tinytop.Retention.Defs.{RetentionLadder}
use tinytop.Retention.Validity.{HasRanges}
use tinytop.Points.Defs.{
  HistoryPointMode, auto, HistoryPointsQuery, Candidate, candidates, holds_start, fits, fallback,
  is_auto, range_of, effective_points_limit, is_rollup_1h, resolve_history_point_source_with_poll,
}
use tinytop.Points.Spec.{Within, Keeps, Fits, IsLeft, IsBest}
use tinytop.Points.Reads.{Reads, both-Reads, either-Reads, true-Reads, zero-Reads, choice-best}
use tinytop.Points.Choice.{IsChoice, choose-IsChoice}

fallback-IsLeft : (ladder : RetentionLadder) → IsLeft ladder (fallback ladder none)
unfolding fallback
fallback-IsLeft ladder = elim (Bool-cases ladder.archive.queryable) [
  | inl a ↦ rw a refl
  | inr a ↦ elim (Bool-cases ladder.l4.enabled) [
    | inl b ↦ rw (a, b) (refl, refl)
    | inr b ↦ elim (Bool-cases ladder.l3.enabled) [
      | inl c ↦ rw (a, b, c) (refl, refl, refl)
      | inr c ↦ rw (a, b, c) (refl, refl, refl)
    ]
  ]
]

-- the days of a valid ladder, and times of an `i64`, are not cut off
leb_ℤ-Reads :
    (now start days : ℤ)
    → IsI64 now
    → IsI64 start
    → pos 0 ≤ℤ days
    → days ≤ℤ pos 36_500
    → Reads
        (leb_ℤ (saturating_sub now (saturating_mul days 86_400_000)) start)
        (Within now start days)
leb_ℤ-Reads now start days n s lo hi = ((λ h. grind int_laws), (λ h w. grind int_laws))

fits-Reads :
    (range limit : ℤ) (c : Candidate)
    → 0 < c.fixed_resolution_ms
    → IsI64 range
    → pos 1 ≤ℤ limit
    → limit ≤ℤ pos 10_000
    → Reads
        (fits (max_ℤ (saturate range) (pos 0)) limit c)
        (range <ℤ scale limit c.fixed_resolution_ms)
unfolding fits max_ℤ saturate div_euclid scale ◌+ℤ◌
fits-Reads (pos r) (pos l) c p i lo hi =
    let n = c.fixed_resolution_ms in
    let iff : (r / n < l) ↔ (r < l * n) = div-lt_iff_lt-mul p in
    (
      (λ h. let d : r / n < l = ground arith in ground (arith, iff.0 d)),
      (λ h w. let d : ¬ (r / n < l) = ground arith in d (iff.1 (ground arith))),
    )
fits-Reads (negsuc r) (pos l) c p i lo hi = ((λ h. ground arith), (λ h w. ground arith))
fits-Reads range (negsuc l) c p i lo hi = absurd (omega arith)

-- the first point of an automatic query, and the last, which are now where they are not given
abbrev pub start_of : ℤ → HistoryPointsQuery → ℤ
start_of now query = unwrap_or now query.since_ms

abbrev pub end_of : ℤ → HistoryPointsQuery → ℤ
end_of now query = unwrap_or now query.until_ms

-- how many points a query may have
abbrev pub IsLimit : Option ℤ → ℤ → Type 0
IsLimit none limit = limit ≡ pos 10_000
IsLimit (some n) limit =
    ((n ≤ℤ pos 1) × (limit ≡ pos 1))
    ⊎ ((pos 1 ≤ℤ n) × (n ≤ℤ pos 10_000) × (limit ≡ n))
    ⊎ ((pos 10_000 ≤ℤ n) × (limit ≡ pos 10_000))

limit_of :
    (o : Option ℤ) (s u : Option ℤ) (m : HistoryPointMode)
    → IsLimit o
        (effective_points_limit record { since_ms = s; until_ms = u; limit = o; source = m })
unfolding effective_points_limit min_ℤ max_ℤ
limit_of none s u m = refl
limit_of (some n) s u m = ground arith

limit-bounds :
    (o : Option ℤ) (limit : ℤ) → IsLimit o limit → (pos 1 ≤ℤ limit) × (limit ≤ℤ pos 10_000)
limit-bounds none limit h = ground arith
limit-bounds (some n) limit h = ground arith

resolve-IsChoice :
    (ladder : RetentionLadder) (poll now : ℤ) (query : HistoryPointsQuery)
    → query.source ≡ auto
    → IsChoice
        (holds_start now (unwrap_or now query.since_ms))
        (fits (range_of now query) (effective_points_limit query))
        (fallback ladder none)
        (candidates ladder poll)
        (resolve_history_point_source_with_poll ladder poll now query)
unfolding resolve_history_point_source_with_poll is_auto fallback
resolve-IsChoice ladder poll now query e = rw e (
    choose-IsChoice (holds_start now (unwrap_or now query.since_ms))
      (fits (range_of now query) (effective_points_limit query)) (fallback ladder) (λ m. refl)
      (candidates ladder poll) none)

-- Where every number of the ladder lies in its range, and the times and the length of the range are
-- those of an `i64`, the source of an automatic query is the finest enabled tier that still keeps the
-- start and whose points, at its resolution, that are as many as the limit take longer than the range
-- is; if there is none, the coarsest that keeps the start; if there is none either, the archive if it
-- is queryable, else the coarsest enabled rollup. An L4 of zero days keeps every start. The limit is
-- the one that was asked for, but 1 at least, and 10,000 if it is more or if none was asked for.
pub resolve_history_point_source_with_poll-IsBest :
    (ladder : RetentionLadder) (poll now : ℤ) (query : HistoryPointsQuery)
    → query.source ≡ auto
    → HasRanges ladder
    → IsI64 now
    → IsI64 (start_of now query)
    → IsI64 (end_of now query -ℤ start_of now query)
    → (limit : ℤ) × IsLimit query.limit limit
      × IsBest
          (Keeps ladder now (start_of now query))
          (Fits (pos_part (max_ℤ poll (pos 1))) (end_of now query -ℤ start_of now query) limit)
          (IsLeft ladder)
          (resolve_history_point_source_with_poll ladder poll now query)
unfolding holds_start is_rollup_1h range_of tinytop.Tiers.Defs.resolution_ms max_ℤ
resolve_history_point_source_with_poll-IsBest ladder poll now query e r n s t =
    let start = start_of now query in
    let range = end_of now query -ℤ start in
    let limit = effective_points_limit query in
    let is_limit = limit_of query.limit query.since_ms query.until_ms query.source in
    let (lo, hi) = limit-bounds query.limit limit is_limit in
    let fit : (c : Candidate)
        → 0 < c.fixed_resolution_ms
        → Reads (fits (range_of now query) limit c) (range <ℤ scale limit c.fixed_resolution_ms) =
      λ c p. fits-Reads range limit c p t lo hi in
    (
      limit,
      is_limit,
      choice-best (holds_start now start) (fits (range_of now query) limit) (Keeps ladder now start)
          (Fits (pos_part (max_ℤ poll (pos 1))) range limit) (IsLeft ladder) _ _ _ _ refl refl refl
          refl (leb_ℤ-Reads now start ladder.l1.keep_days n s (omega arith) (omega arith))
          (leb_ℤ-Reads now start ladder.l2.keep_days n s (omega arith) (omega arith))
          (both-Reads ladder.l3.enabled _ (true-Reads ladder.l3.enabled)
            (leb_ℤ-Reads now start ladder.l3.keep_days n s (omega arith) (omega arith)))
          (both-Reads ladder.l4.enabled _ (true-Reads ladder.l4.enabled) (
            either-Reads (eqb_ℤ ladder.l4.keep_days (pos 0)) _ (zero-Reads ladder.l4.keep_days)
              (leb_ℤ-Reads now start ladder.l4.keep_days n s (omega arith) (omega arith))))
          (fit _ (ground arith)) (fit _ (omega arith)) (fit _ (omega arith)) (fit _ (omega arith))
          (fallback ladder none) _ (fallback-IsLeft ladder)
          (resolve-IsChoice ladder poll now query e),
    )

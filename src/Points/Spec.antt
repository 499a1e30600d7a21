-- ===== src/Points/Spec.antt =====
-- What the source of an automatic query is, in whole milliseconds and days.
use tinytop.Prelude.{ℕ, ◌≡◌, true, false, ◌⊎◌}
use tinytop.Prelude.Int.{ℤ, pos, ◌≤ℤ◌, ◌<ℤ◌, ◌+ℤ◌, scale}
use tinytop.Retention.Defs.{RetentionLadder}
use tinytop.Points.Defs.{HistoryPointMode, auto, raw, rollup, rollup_5m, rollup_1h, archive}

-- A row of the start is not older than so many days.
abbrev pub Within : ℤ → ℤ → ℤ → Type 0
Within now start days = now ≤ℤ start +ℤ scale days 86_400_000

-- the source is enabled, and its rows of the start have not expired
abbrev pub Keeps : RetentionLadder → ℤ → ℤ → HistoryPointMode → Type 0
Keeps ladder now start auto = ⊥
Keeps ladder now start raw = Within now start ladder.l1.keep_days
Keeps ladder now start rollup = Within now start ladder.l2.keep_days
Keeps ladder now start rollup_5m = (ladder.l3.enabled ≡ true) × Within now start ladder.l3.keep_days
Keeps ladder now start rollup_1h =
    (ladder.l4.enabled ≡ true)
    × ((ladder.l4.keep_days ≡ pos 0) ⊎ Within now start ladder.l4.keep_days)
Keeps ladder now start archive = ⊥

-- milliseconds between two points of a source
abbrev pub step_of : ℕ → HistoryPointMode → ℕ
step_of poll auto = 1
step_of poll raw = poll
step_of poll rollup = 60_000
step_of poll rollup_5m = 300_000
step_of poll rollup_1h = 3_600_000
step_of poll archive = 1

-- the range is shorter than that many points take
abbrev pub Fits : ℕ → ℤ → ℤ → HistoryPointMode → Type 0
Fits poll range limit m = range <ℤ scale limit (step_of poll m)

-- no finer source satisfies `P`
abbrev pub NoneFiner : (HistoryPointMode → Type 0) → HistoryPointMode → Type 0
NoneFiner P auto = ⊥
NoneFiner P raw = Unit
NoneFiner P rollup = ¬ (P raw)
NoneFiner P rollup_5m = ¬ (P raw) × ¬ (P rollup)
NoneFiner P rollup_1h = ¬ (P raw) × ¬ (P rollup) × ¬ (P rollup_5m)
NoneFiner P archive = ¬ (P raw) × ¬ (P rollup) × ¬ (P rollup_5m) × ¬ (P rollup_1h)

-- no coarser source of the main database satisfies `P`
abbrev pub NoneCoarser : (HistoryPointMode → Type 0) → HistoryPointMode → Type 0
NoneCoarser P auto = ⊥
NoneCoarser P raw = ¬ (P rollup) × ¬ (P rollup_5m) × ¬ (P rollup_1h)
NoneCoarser P rollup = ¬ (P rollup_5m) × ¬ (P rollup_1h)
NoneCoarser P rollup_5m = ¬ (P rollup_1h)
NoneCoarser P rollup_1h = Unit
NoneCoarser P archive = Unit

-- what is read where no source keeps the start
abbrev pub IsLeft : RetentionLadder → HistoryPointMode → Type 0
IsLeft ladder auto = ⊥
IsLeft ladder raw = ⊥
IsLeft ladder rollup =
    (ladder.archive.queryable ≡ false) × (ladder.l4.enabled ≡ false) × (ladder.l3.enabled ≡ false)
IsLeft ladder rollup_5m =
    (ladder.archive.queryable ≡ false) × (ladder.l4.enabled ≡ false) × (ladder.l3.enabled ≡ true)
IsLeft ladder rollup_1h = (ladder.archive.queryable ≡ false) × (ladder.l4.enabled ≡ true)
IsLeft ladder archive = ladder.archive.queryable ≡ true

-- the finest that keeps the start and fits; else the coarsest that keeps it; else what is left
abbrev pub IsBest :
    (HistoryPointMode → Type 0)
    → (HistoryPointMode → Type 0)
    → (HistoryPointMode → Type 0)
    → HistoryPointMode
    → Type 0
IsBest keeps fit left m =
    (keeps m × fit m × NoneFiner (λ x. keeps x × fit x) m)
    ⊎ (NoneFiner (λ x. keeps x × fit x) archive
        × ((keeps m × NoneCoarser keeps m) ⊎ (NoneFiner keeps archive × left m)))

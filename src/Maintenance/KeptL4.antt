-- ===== src/Maintenance/KeptL4.antt =====
-- What a maintenance tick may delete from L4: nothing but what has expired while the archive is off.
-- With the archive on, a row goes only into the archive.
use tinytop.Prelude.{◌≡◌, true, false, Bool, ◌⊎◌, Option, some, if◌then◌else◌}
use tinytop.Prelude.Int.{ℤ, pos, ◌≤ℤ◌, ◌+ℤ◌, leb_ℤ, saturating_sub}
use tinytop.Retention.Defs.{LadderConfig, ArchiveSettings}
use tinytop.Tiers.Defs.{l4, Float, resolution_ms}
use tinytop.Store.Rows.{Db}
use tinytop.Archive.Move.{has_start, move_expired_l4}
use tinytop.Maintenance.Defs.{Step, ◌then◌}
use tinytop.Maintenance.Tick.{after_watermarks}
use tinytop.Maintenance.Keeps.{Keeps, StepKeeps, then-Keeps}
use tinytop.Maintenance.PromoteSteps

module _ {F : Type 0} (same : F → F → Bool) (config : LadderConfig) (archive : ArchiveSettings)
    (now t : ℤ) where
  -- the bucket with this start has expired, L4 is not kept for ever, and the archive is off
  pub record MayExpire : Type 0 where
    pub is_off : archive.queryable ≡ false
    pub keep_ms : ℤ
    pub is_on : config.l4 ≡ some keep_ms
    -- no keep time is for ever
    pub is_finite : pos 1 ≤ℤ keep_ms
    pub is_old : leb_ℤ (t +ℤ pos (resolution_ms l4)) (saturating_sub now keep_ms) ≡ true

  -- a bucket with this start is in the L4 table or in the archive
  abbrev pub Stored : Db F → Type 0
  Stored db = (has_start t db.metric_rollups_1h ≡ true) ⊎ (has_start t db.archive_file.rows ≡ true)

  abbrev Kept : Db F → Type 0
  Kept db = Stored db ⊎ MayExpire

  -- a step that keeps the start
  record IsKept (s : Step F) : Type 0 where
    keeps : StepKeeps Kept s

  infixl 4 ◌and_then◌
  ◌and_then◌ : {s u : Step F} → IsKept s → IsKept u → IsKept (s then u)
  ◌and_then◌ {s} {u} ks ku = record { keeps = then-Keeps Kept s u ks.keeps ku.keeps }

  module _ (fl : Float F) where
    abbrev after : Option ℤ → Option ℤ → Step F
    after = after_watermarks fl (move_expired_l4 same) config archive now

-- ===== src/Maintenance/Tick.antt =====
-- The whole maintenance tick: `maintain_with_archive` and `maintain` of maintenance.rs.
use tinytop.Prelude.{◌⊎◌, inl, inr, Option, none, some, is_some, if◌then◌else◌, StoreError, ok, err}
use tinytop.Prelude.Int.{ℤ}
use tinytop.Retention.Defs.{LadderConfig, ArchiveSettings, to_ladder_config}
use tinytop.Settings.Dashboard.{DashboardSettings, validate_settings}
use tinytop.Tiers.Defs.{Float}
use tinytop.Store.Exec.{World}
use tinytop.Store.Rows.{Db}
use tinytop.Maintenance.Promote.{l3_folded_until_ms, l4_folded_until_ms}
use tinytop.Maintenance.Defs.{
  MaintenanceReport, empty_report, Progress, Step, ◌then◌, read_watermark, take_pending, persist_l3,
  persist_l4, promote_l3, promote_l4,
}
use tinytop.Maintenance.Prune.{
  ArchiveMove, prune_l1, prune_gpu, prune_sensors, prune_details, prune_fast, prune_orphans,
  prune_l2, prune_l3, expire_l4,
}

-- the result of a tick: an error comes with the report so far
pub record MaintenanceError : Type 0 where
  pub report : MaintenanceReport
  pub error : StoreError

abbrev pub Outcome : Type 0
Outcome = MaintenanceReport ⊎ MaintenanceError

abbrev pub succeeded : MaintenanceReport → Outcome
succeeded r = inl r

unfoldable pub finish : Progress → Outcome
finish p = elim p.first_error [
  | none ↦ inl p.report
  | some e ↦ inr record { report = p.report; error = e }
]

module _ {F : Type 0} (fl : Float F) (move : ArchiveMove F) (config : LadderConfig)
    (archive : ArchiveSettings) (now_ms : ℤ) where
  -- the steps after both watermarks are read
  unfoldable pub after_watermarks : Option ℤ → Option ℤ → Step F
  unfolding promote_l3 promote_l4 prune_l1 prune_gpu prune_sensors prune_details prune_fast
      prune_orphans prune_l2 prune_l3 expire_l4
  after_watermarks l3_watermark l4_watermark =
      promote_l3 fl config now_ms
      then promote_l4 fl config now_ms
      then prune_l1 config now_ms
      then prune_gpu config now_ms
      then prune_sensors config now_ms
      then prune_details config now_ms
      then prune_fast config now_ms
      then prune_orphans
      then prune_l2 config now_ms l3_watermark l4_watermark
      then prune_l3 config now_ms l4_watermark
      then expire_l4 move config archive now_ms

  unfoldable pub steps : Step F
  unfolding take_pending persist_l3 persist_l4 read_watermark after_watermarks
  steps =
      take_pending
      then persist_l3 (is_some config.l3)
      then persist_l4 (is_some config.l4)
      then read_watermark l3_folded_until_ms (λ l3_watermark.
        read_watermark l4_folded_until_ms
          (λ l4_watermark. after_watermarks l3_watermark l4_watermark))

  unfoldable pub maintain_with_archive : World (Db F) → Outcome × World (Db F)
  unfolding steps finish
  maintain_with_archive w =
      let (p, w') = steps record { report = empty_report; first_error = none } w in (finish p, w')

unfoldable pub maintain :
    {F : Type 0}
    → Float F
    → ArchiveMove F
    → DashboardSettings
    → ℤ
    → World (Db F)
    → Outcome × World (Db F)
unfolding maintain_with_archive
maintain fl move settings now_ms w = elim (validate_settings settings) [
  | ok _ ↦
      maintain_with_archive fl move
        (to_ladder_config settings.retention_ladder settings.poll_interval_ms)
        settings.retention_ladder.archive now_ms w
  | err e ↦ (inr record { report = empty_report; error = e }, w)
]

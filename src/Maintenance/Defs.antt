-- ===== src/Maintenance/Defs.antt =====
-- `maintain` and `maintain_with_archive` of maintenance.rs. A step that fails is recorded and the tick
-- goes on. Moving rows into the archive files is a parameter.
use tinytop.Prelude.{
  ℕ, min, Bool, true, false, not, Option, none, some, is_some, if◌then◌else◌, unwrap_or, StoreError,
  ok, err,
}
use tinytop.Prelude.Int.{ℤ, pos, eqb_ℤ, i64_min, i64_top}
use tinytop.Retention.Defs.{LadderConfig}
use tinytop.Tiers.Defs.{Tier, l2, l3, l4, Float, grace_ms}
use tinytop.Store.Exec.{World, Exec, pure, query, update, ◌>>=◌}
use tinytop.Store.Rows.{Db}
use tinytop.Maintenance.Promote.{
  promote, Watermark, l3_folded_until_ms, l4_folded_until_ms, get_watermark,
}

abbrev pub orphan_command_prune_batch : ℕ
orphan_command_prune_batch = 1_000

-- `MAX_ARCHIVE_BATCHES_PER_TICK` and `ARCHIVE_BATCH_ROWS` of archive.rs
abbrev pub max_archive_batches_per_tick : ℕ
max_archive_batches_per_tick = 10

abbrev pub archive_batch_rows : ℕ
archive_batch_rows = 1_000

pub record MaintenanceReport : Type 0 where
  pub promoted_l3 : ℤ
  pub promoted_l4 : ℤ
  pub pruned_l1 : ℤ
  pub pruned_l2 : ℤ
  pub pruned_l3 : ℤ
  pub pruned_l4 : ℤ
  pub detail_rows : ℤ
  pub detail_rows_pruned : ℕ
  pub gpu_rows : ℕ
  pub sensor_rows : ℕ
  pub process_fast_rows : ℕ
  pub orphan_commands : ℕ
  pub expired_l4 : ℤ
  pub archived_l4 : ℤ

-- `MaintenanceReport::default()`
abbrev pub empty_report : MaintenanceReport
empty_report = record {
  promoted_l3 = pos 0;
  promoted_l4 = pos 0;
  pruned_l1 = pos 0;
  pruned_l2 = pos 0;
  pruned_l3 = pos 0;
  pruned_l4 = pos 0;
  detail_rows = pos 0;
  detail_rows_pruned = 0;
  gpu_rows = 0;
  sensor_rows = 0;
  process_fast_rows = 0;
  orphan_commands = 0;
  expired_l4 = pos 0;
  archived_l4 = pos 0;
}

-- the report so far and the first error
pub record Progress : Type 0 where
  pub report : MaintenanceReport
  pub first_error : Option StoreError

unfoldable pub record_step_error : StoreError → Progress → Progress
record_step_error e p = elim p.first_error [
  | none ↦ record p { first_error = some e }
  | some first ↦ p
]

unfoldable pub to_i64_count : ℕ → ℤ
to_i64_count count = pos (min count i64_top)

unfoldable pub required_watermark : Option ℤ → ℤ
required_watermark watermark = unwrap_or i64_min watermark

unfoldable pub same_flag : Option Bool → Bool → Bool
same_flag none enabled = false
same_flag (some true) enabled = enabled
same_flag (some false) enabled = not enabled

abbrev pub Step : Type 0 → Type 0
Step F = Progress → World (Db F) → Progress × World (Db F)

module _ {F : Type 0} where
  abbrev pub skip : Step F
  skip p w = (p, w)

  infixl 4 ◌then◌
  abbrev pub ◌then◌ : Step F → Step F → Step F
  ◌then◌ s t p w = let (p', w') = s p w in t p' w'

  -- an action whose result is noted in the report, or whose error is recorded
  unfoldable pub attempt :
      {A : Type 0} → Exec (Db F) A → (A → MaintenanceReport → MaintenanceReport) → Step F
  unfolding record_step_error
  attempt m note p w =
      let (r, w') = m w in
      elim r [
        | ok a ↦ (record p { report = note a p.report }, w')
        | err e ↦ (record_step_error e p, w')
      ]

  -- `read_watermark`, with what the tick does next
  unfoldable pub read_watermark : Watermark → (Option ℤ → Step F) → Step F
  unfolding record_step_error get_watermark
  read_watermark key next p w =
      let (r, w') = get_watermark key w in
      elim r [ ok value ↦ next value p w' | err e ↦ next none (record_step_error e p) w' ]

  -- the pending detail rows of the last tick; a nonzero count is reported also when it is not cleared
  unfoldable pub take_pending : Step F
  unfolding attempt record_step_error
  take_pending p w =
      let (r, w') = query (λ db. db.pending_detail_rows) w in
      elim r [
        | ok pending ↦
            let count = unwrap_or (pos 0) pending in
            if eqb_ℤ count (pos 0)
            then (p, w')
            else attempt (update (λ db. record db { pending_detail_rows = some (pos 0) }))
                (λ _ r. r) (record p { report = record p.report { detail_rows = count } }) w'
        | err e ↦ (record_step_error e p, w')
      ]

  -- stores an enabled flag that is not stored yet
  unfoldable pub persist_l3 : Bool → Step F
  unfolding attempt same_flag
  persist_l3 enabled =
      attempt
        (query (λ db. db.l3_enabled) >>= λ current.
          if same_flag current enabled
          then pure tt
          else update (λ db. record db { l3_enabled = some enabled }))
        (λ _ r. r)

  unfoldable pub persist_l4 : Bool → Step F
  unfolding attempt same_flag
  persist_l4 enabled =
      attempt
        (query (λ db. db.l4_enabled) >>= λ current.
          if same_flag current enabled
          then pure tt
          else update (λ db. record db { l4_enabled = some enabled }))
        (λ _ r. r)

module _ {F : Type 0} (fl : Float F) (config : LadderConfig) (now_ms : ℤ) where
  unfoldable pub promote_l3 : Step F
  unfolding attempt promote
  promote_l3 =
      if is_some config.l3
      then attempt
          (promote fl record {
            source_tier = l2;
            target_tier = l3;
            watermark = l3_folded_until_ms;
            now_ms = now_ms;
            grace_ms = grace_ms config.poll_interval_ms;
            source_folded_until_ms = none;
          })
          (λ count r. record r { promoted_l3 = pos count })
      else skip

  unfoldable pub promote_l4_from : Tier → Option ℤ → Step F
  unfolding attempt promote
  promote_l4_from source_tier source_folded_until_ms =
      attempt
        (promote fl record {
          source_tier = source_tier;
          target_tier = l4;
          watermark = l4_folded_until_ms;
          now_ms = now_ms;
          grace_ms = grace_ms config.poll_interval_ms;
          source_folded_until_ms = source_folded_until_ms;
        })
        (λ count r. record r { promoted_l4 = pos count })

  unfoldable pub promote_l4 : Step F
  unfolding promote_l4_from read_watermark
  promote_l4 =
      if is_some config.l4
      then (if is_some config.l3
          then read_watermark l3_folded_until_ms (λ value. promote_l4_from l3 value)
          else promote_l4_from l2 none)
      else skip

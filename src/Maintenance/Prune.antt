-- ===== src/Maintenance/Prune.antt =====
-- The prunes of a maintenance tick, each with its cutoff as `maintain_with_archive` of
-- maintenance.rs computes it.
use tinytop.Prelude.{
  ℕ, zero, suc, ltb, ◌==◌, Option, none, some, length, is_some, if◌then◌else◌, ok, err,
}
use tinytop.Prelude.Int.{ℤ, pos, ltb_ℤ, min_ℤ, i64_max, saturating_add, saturating_sub}
use tinytop.Retention.Defs.{LadderConfig, ArchiveSettings}
use tinytop.Tiers.Defs.{l2, l3, l4}
use tinytop.Store.Exec.{Exec}
use tinytop.Store.Rows.{Db}
use tinytop.Store.Tables.{prune_rollups, prune_raw_history, prune_gpu_history, prune_sensor_history}
use tinytop.Store.Detail.{
  prune_detail_history, prune_process_fast_history, prune_orphan_commands, add_u64,
}
use tinytop.Maintenance.Defs.{
  orphan_command_prune_batch, max_archive_batches_per_tick, archive_batch_rows, MaintenanceReport,
  record_step_error, to_i64_count, required_watermark, Step, skip, ◌then◌, attempt,
}

-- `move_expired_l4` of archive.rs: the cutoff and the number of rows at most
abbrev pub ArchiveMove : Type 0 → Type 0
ArchiveMove F = ℤ → ℕ → Exec (Db F) ℕ

module _ (config : LadderConfig) (now_ms : ℤ) where
  -- the cutoff of L2: not beyond the watermark of the tier that is folded from it
  unfoldable pub l2_cutoff : Option ℤ → Option ℤ → ℤ
  unfolding required_watermark
  l2_cutoff l3_watermark l4_watermark = min_ℤ (saturating_sub now_ms config.l2_keep_ms) (
      if is_some config.l3
      then required_watermark l3_watermark
      else if is_some config.l4
      then required_watermark l4_watermark
      else i64_max)

  unfoldable pub l3_cutoff : ℤ → Option ℤ → ℤ
  unfolding required_watermark
  l3_cutoff l3_keep_ms l4_watermark =
      min_ℤ (saturating_sub now_ms l3_keep_ms)
        (if is_some config.l4 then required_watermark l4_watermark else i64_max)

-- what a batch adds to the report
abbrev pub note_expired : ℕ → MaintenanceReport → MaintenanceReport
note_expired count r = record r {
  archived_l4 = saturating_add r.archived_l4 (pos count);
  expired_l4 = saturating_add r.expired_l4 (pos count);
  pruned_l4 = saturating_add r.pruned_l4 (pos count);
}

module _ {F : Type 0} (config : LadderConfig) (now_ms : ℤ) where
  unfoldable pub prune_l1 : Step F
  unfolding attempt prune_raw_history to_i64_count
  prune_l1 =
      attempt (prune_raw_history (saturating_sub now_ms config.l1_keep_ms))
        (λ count r. record r { pruned_l1 = to_i64_count count })

  unfoldable pub prune_gpu : Step F
  unfolding attempt prune_gpu_history
  prune_gpu =
      attempt (prune_gpu_history (saturating_sub now_ms config.l1_keep_ms))
        (λ count r. record r { gpu_rows = count })

  unfoldable pub prune_sensors : Step F
  unfolding attempt prune_sensor_history
  prune_sensors =
      attempt (prune_sensor_history (saturating_sub now_ms config.l1_keep_ms))
        (λ count r. record r { sensor_rows = count })

  unfoldable pub prune_details : Step F
  unfolding attempt prune_detail_history
  prune_details =
      attempt (prune_detail_history (saturating_sub now_ms config.l2_keep_ms))
        (λ count r. record r { detail_rows_pruned = count })

  unfoldable pub prune_fast : Step F
  unfolding attempt prune_process_fast_history
  prune_fast =
      attempt (prune_process_fast_history (saturating_sub now_ms config.process_fast_keep_ms))
        (λ count r. record r { process_fast_rows = count })

  unfoldable pub prune_l2 : Option ℤ → Option ℤ → Step F
  unfolding attempt prune_rollups l2_cutoff to_i64_count
  prune_l2 l3_watermark l4_watermark =
      attempt (prune_rollups l2 (l2_cutoff config now_ms l3_watermark l4_watermark))
        (λ count r. record r { pruned_l2 = to_i64_count count })

  unfoldable pub prune_l3_if : Option ℤ → Option ℤ → Step F
  unfolding attempt prune_rollups l3_cutoff to_i64_count
  prune_l3_if l4_watermark none = skip
  prune_l3_if l4_watermark (some l3_keep_ms) =
      attempt (prune_rollups l3 (l3_cutoff config now_ms l3_keep_ms l4_watermark))
        (λ count r. record r { pruned_l3 = to_i64_count count })

  unfoldable pub prune_l3 : Option ℤ → Step F
  unfolding prune_l3_if
  prune_l3 l4_watermark = prune_l3_if l4_watermark config.l3

module _ {F : Type 0} where
  -- the loop over orphaned commands; the fuel bounds its iterations
  unfoldable pub prune_orphans_loop : ℕ → Step F
  unfolding prune_orphan_commands record_step_error
  prune_orphans_loop zero p w = (p, w)
  prune_orphans_loop (suc fuel) p w =
      let (r, w') = prune_orphan_commands orphan_command_prune_batch w in
      elim r [
        | ok count ↦
            let p' = record p {
              report = record p.report { orphan_commands = add_u64 p.report.orphan_commands count };
            } in
            if ltb count orphan_command_prune_batch then (p', w') else prune_orphans_loop fuel p' w'
        | err e ↦ (record_step_error e p, w')
      ]

  -- an iteration that goes on deletes commands, so that one more than the commands are enough
  unfoldable pub prune_orphans : Step F
  unfolding prune_orphans_loop
  prune_orphans p w =
      if ltb 0 (add_u64 p.report.detail_rows_pruned p.report.process_fast_rows)
      then prune_orphans_loop (suc (length w.db.process_commands)) p w
      else (p, w)

  unfoldable pub archive_batches : ArchiveMove F → ℤ → ℕ → Step F
  unfolding record_step_error
  archive_batches move cutoff zero p w = (p, w)
  archive_batches move cutoff (suc n) p w =
      let (r, w') = move cutoff archive_batch_rows w in
      elim r [
        | ok count ↦
            if count == 0
            then (p, w')
            else archive_batches move cutoff n (record p { report = note_expired count p.report })
                w'
        | err e ↦ (record_step_error e p, w')
      ]

  unfoldable pub expire_l4 : ArchiveMove F → LadderConfig → ArchiveSettings → ℤ → Step F
  unfolding attempt prune_rollups archive_batches to_i64_count
  expire_l4 move config archive now_ms = elim config.l4 [
    | none ↦ skip
    | some l4_keep_ms ↦
        if ltb_ℤ (pos 0) l4_keep_ms
        then (if archive.queryable
            then archive_batches move (saturating_sub now_ms l4_keep_ms)
                max_archive_batches_per_tick
            else attempt (prune_rollups l4 (saturating_sub now_ms l4_keep_ms)) (λ count r.
              record r { expired_l4 = to_i64_count count; pruned_l4 = to_i64_count count }))
        else skip
  ]

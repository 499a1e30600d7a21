-- ===== src/Maintenance/PruneFrames.antt =====
-- The loops of pruning leave the tier tables too, and the moves of L4 the lower tiers.
use tinytop.Prelude.{
  ◌≡◌, refl, ℕ, zero, suc, ltb, Bool, true, false, inl, inr, List, [], ◌∷◌, length, if◌then◌else◌,
  Result-cases, arith, Option-cases,
}
use tinytop.Prelude.Int.{ℤ, saturating_sub}
use tinytop.Prelude.Text.{Text}
use tinytop.Retention.Defs.{LadderConfig, ArchiveSettings}
use tinytop.Tiers.Defs.{l4}
use tinytop.Store.Exec.{Exec, pure, query, transaction, ◌>>=◌}
use tinytop.Store.Rows.{Db}
use tinytop.Store.Tables.{prune_rollups}
use tinytop.Store.Detail.{
  delete_superseded, delete_superseded_events, prune_processes, prune_gone, gone_mounts,
  delete_gone, prune_detail_body, prune_detail_history, prune_fast_batch, prune_fast_loop,
  prune_process_fast_history, prune_orphan_commands, process_fast_prune_batch, add_u64,
}
use tinytop.Maintenance.Defs.{
  MaintenanceReport, Progress, attempt, orphan_command_prune_batch, archive_batch_rows,
  max_archive_batches_per_tick, to_i64_count,
}
use tinytop.Maintenance.Prune.{
  ArchiveMove, note_expired, prune_details, prune_fast, prune_orphans, prune_orphans_loop,
  archive_batches, expire_l4,
}
use tinytop.Maintenance.Frames.{
  tables, LeavesLower, StepLeavesLower, Leaves, StepLeaves, attempt-Leaves, bind-Leaves,
  transaction-Leaves, if-Leaves,
}

abbrev noted : Progress → ℕ → Progress
noted p count = record p {
  report = record p.report { orphan_commands = add_u64 p.report.orphan_commands count };
}

module _ {F : Type 0} where
  delete_gone-at :
      (mounts : List Text) (n : ℕ) (db : Db F) (fs : List Bool)
      → tables (delete_gone mounts n record { db = db; faults = fs }).1.db ≡ tables db
  unfolding delete_gone
  delete_gone-at [] n db fs = refl
  delete_gone-at (m ∷ ms) n db [] = delete_gone-at ms _ _ []
  delete_gone-at (m ∷ ms) n db (true ∷ fs) = refl
  delete_gone-at (m ∷ ms) n db (false ∷ []) = delete_gone-at ms _ _ []
  delete_gone-at (m ∷ ms) n db (false ∷ true ∷ fs) = refl
  delete_gone-at (m ∷ ms) n db (false ∷ false ∷ fs) = delete_gone-at ms _ _ fs

  delete_gone-Leaves : (mounts : List Text) (n : ℕ) → Leaves {F = F} (delete_gone mounts n)
  delete_gone-Leaves mounts n w = delete_gone-at mounts n w.db w.faults

  prune_processes-Leaves : (cutoff : ℤ) (n : ℕ) → Leaves {F = F} (prune_processes cutoff n)
  unfolding prune_processes
  prune_processes-Leaves cutoff n w = ground arith

  query-Leaves : {A : Type 0} (f : Db F → A) → Leaves {F = F} (query f)
  query-Leaves f w = ground arith

  prune_gone-Leaves : (cutoff : ℤ) (n : ℕ) → Leaves {F = F} (prune_gone cutoff n)
  unfolding prune_gone
  prune_gone-Leaves cutoff n =
      bind-Leaves (query (λ db. gone_mounts cutoff db.fs_mount_events))
        (λ gone. delete_gone gone n >>= prune_processes cutoff)
        (query-Leaves (λ db. gone_mounts cutoff db.fs_mount_events))
        (λ gone.
          bind-Leaves (delete_gone gone n) (prune_processes cutoff) (delete_gone-Leaves gone n)
            (prune_processes-Leaves cutoff))

  delete_superseded-Leaves : (cutoff : ℤ) → Leaves {F = F} (delete_superseded cutoff)
  unfolding delete_superseded
  delete_superseded-Leaves cutoff w = ground arith

  delete_superseded_events-Leaves : (cutoff : ℤ) → Leaves {F = F} (delete_superseded_events cutoff)
  unfolding delete_superseded_events
  delete_superseded_events-Leaves cutoff w = ground arith

  prune_detail_body-Leaves : (cutoff : ℤ) → Leaves {F = F} (prune_detail_body cutoff)
  unfolding prune_detail_body
  prune_detail_body-Leaves cutoff =
      bind-Leaves (delete_superseded cutoff)
        (λ samples.
          delete_superseded_events cutoff >>= λ events. prune_gone cutoff (add_u64 samples events))
        (delete_superseded-Leaves cutoff)
        (λ samples.
          bind-Leaves (delete_superseded_events cutoff)
            (λ events. prune_gone cutoff (add_u64 samples events))
            (delete_superseded_events-Leaves cutoff)
            (λ events. prune_gone-Leaves cutoff (add_u64 samples events)))

  pub prune_details-Leaves :
      (config : LadderConfig) (now : ℤ) → StepLeaves {F = F} (prune_details config now)
  unfolding prune_details prune_detail_history
  prune_details-Leaves config now =
      let cutoff = saturating_sub now config.l2_keep_ms in
      attempt-Leaves (transaction (prune_detail_body cutoff))
        (λ count r. record r { detail_rows_pruned = count })
        (transaction-Leaves (prune_detail_body cutoff) (prune_detail_body-Leaves cutoff))

  prune_fast_batch-Leaves : (cutoff : ℤ) → Leaves {F = F} (prune_fast_batch cutoff)
  unfolding prune_fast_batch
  prune_fast_batch-Leaves cutoff w = ground arith

  prune_fast_loop-Leaves :
      (fuel : ℕ) (cutoff : ℤ) (total : ℕ) → Leaves {F = F} (prune_fast_loop fuel cutoff total)
  unfolding prune_fast_loop
  prune_fast_loop-Leaves zero cutoff total w = refl
  prune_fast_loop-Leaves (suc fuel) cutoff total w =
      bind-Leaves (prune_fast_batch cutoff)
        (λ d.
          if ltb d process_fast_prune_batch
          then pure (add_u64 total d)
          else prune_fast_loop fuel cutoff (add_u64 total d))
        (prune_fast_batch-Leaves cutoff)
        (λ d.
          if-Leaves (ltb d process_fast_prune_batch) (pure (add_u64 total d))
            (prune_fast_loop fuel cutoff (add_u64 total d)) (λ v. refl)
            (prune_fast_loop-Leaves fuel cutoff (add_u64 total d)))
        w

  pub prune_fast-Leaves :
      (config : LadderConfig) (now : ℤ) → StepLeaves {F = F} (prune_fast config now)
  unfolding prune_fast prune_process_fast_history
  prune_fast-Leaves config now =
      let cutoff = saturating_sub now config.process_fast_keep_ms in
      attempt-Leaves (prune_process_fast_history cutoff)
        (λ count r. record r { process_fast_rows = count })
        (λ w. prune_fast_loop-Leaves (suc (length w.db.process_samples_fast)) cutoff 0 w)

  prune_orphan_commands-Leaves : (n : ℕ) → Leaves {F = F} (prune_orphan_commands n)
  unfolding prune_orphan_commands
  prune_orphan_commands-Leaves n w = ground arith

  prune_orphans_loop-Leaves : (fuel : ℕ) → StepLeaves {F = F} (prune_orphans_loop fuel)
  unfolding prune_orphans_loop
  prune_orphans_loop-Leaves zero p w = refl
  prune_orphans_loop-Leaves (suc fuel) p w =
      let k = prune_orphan_commands-Leaves orphan_command_prune_batch w in
      let w' = (prune_orphan_commands orphan_command_prune_batch w).1 in
      elim (Result-cases (prune_orphan_commands orphan_command_prune_batch w).0) [
        | inl (c, e) ↦ ground (arith, k, prune_orphans_loop-Leaves fuel (noted p c) w')
        | inr (x, e) ↦ ground (arith, k)
      ]

  pub prune_orphans-Leaves : StepLeaves {F = F} prune_orphans
  unfolding prune_orphans
  prune_orphans-Leaves p w =
      ground (arith, prune_orphans_loop-Leaves (suc (length w.db.process_commands)) p w)

  attempt-LeavesLower :
      {A : Type 0} (m : Exec (Db F) A) (note : A → MaintenanceReport → MaintenanceReport)
      → LeavesLower {F = F} m
      → StepLeavesLower {F = F} (attempt m note)
  unfolding attempt
  attempt-LeavesLower m note k p w = elim (Result-cases (m w).0) [
    | inl (a, e) ↦ ground (arith, k w)
    | inr (x, e) ↦ ground (arith, k w)
  ]

  archive_batches-LeavesLower :
      (move : ArchiveMove F)
      → ((cutoff : ℤ) (n : ℕ) → LeavesLower {F = F} (move cutoff n))
      → (cutoff : ℤ) (n : ℕ) → StepLeavesLower {F = F} (archive_batches move cutoff n)
  unfolding archive_batches
  archive_batches-LeavesLower move k cutoff zero p w = refl
  archive_batches-LeavesLower move k cutoff (suc n) p w =
      let k' = k cutoff archive_batch_rows w in
      let w' = (move cutoff archive_batch_rows w).1 in
      elim (Result-cases (move cutoff archive_batch_rows w).0) [
        | inl (c, e) ↦ ground (
          arith,
          k',
          archive_batches-LeavesLower move k cutoff n
              (record p { report = note_expired c p.report }) w',
        )
        | inr (x, e) ↦ ground (arith, k')
      ]

  prune_l4-LeavesLower : (cutoff : ℤ) → LeavesLower {F = F} (prune_rollups l4 cutoff)
  unfolding prune_rollups
  prune_l4-LeavesLower cutoff w = ground arith

  pub expire_l4-LeavesLower :
      (move : ArchiveMove F)
      → ((cutoff : ℤ) (n : ℕ) → LeavesLower {F = F} (move cutoff n))
      → (config : LadderConfig) (archive : ArchiveSettings) (now : ℤ)
      → StepLeavesLower {F = F} (expire_l4 move config archive now)
  unfolding expire_l4
  expire_l4-LeavesLower move k config archive now p w = elim (Option-cases config.l4) [
    | inl e ↦ ground arith
    | inr (keep, e) ↦
        let cutoff = saturating_sub now keep in
        ground (
          arith,
          archive_batches-LeavesLower move k cutoff max_archive_batches_per_tick p w,
          attempt-LeavesLower (prune_rollups l4 cutoff)
              (λ count r. record r {
                expired_l4 = to_i64_count count;
                pruned_l4 = to_i64_count count;
              })
              (prune_l4-LeavesLower cutoff) p w,
        )
  ]

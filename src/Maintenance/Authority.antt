-- ===== src/Maintenance/Authority.antt =====
-- What a maintenance tick may delete from L2: only what is old enough and already folded into the tier
-- that depends on it, whichever statements fail.
use tinytop.Prelude.{◌≡◌, ◌∙◌, refl, ap, ℕ, ◌⊎◌, inl, Option, none, is_some, Listed}
use tinytop.Prelude.Int.{ℤ, IsI64}
use tinytop.Retention.Defs.{LadderConfig, ArchiveSettings}
use tinytop.Tiers.Defs.{Float, TierBucket}
use tinytop.Store.Exec.{World}
use tinytop.Store.Rows.{Db}
use tinytop.Maintenance.Promote.{l3_folded_until_ms, l4_folded_until_ms}
use tinytop.Maintenance.Defs.{
  Progress, Step, promote_l3, promote_l4, read_watermark, empty_report, take_pending, persist_l3,
  persist_l4,
}
use tinytop.Maintenance.Prune.{
  prune_l1, prune_gpu, prune_sensors, prune_details, prune_fast, prune_orphans, expire_l4,
  ArchiveMove, prune_l2, prune_l3,
}
use tinytop.Maintenance.Tick.{after_watermarks, steps, maintain_with_archive}
use tinytop.Maintenance.Keeps.{StepKeeps, read_l3-Takes, read_l4-Takes}
use tinytop.Maintenance.Frames.{
  prune_l1-Leaves, prune_gpu-Leaves, prune_sensors-Leaves, take_pending-Leaves, persist_l3-Leaves,
  persist_l4-Leaves, LeavesLower, StepLeaves,
}
use tinytop.Maintenance.PruneFrames.{
  prune_details-Leaves, prune_fast-Leaves, prune_orphans-Leaves, expire_l4-LeavesLower,
}
use tinytop.Maintenance.MayGo.{MayGo, Read}
use tinytop.Maintenance.KeptL2.{
  Kept, leaves-Keeps, lower-Keeps, step-prune_l2, step-promote_l3, step-promote_l4, step-prune_l3,
}

module _ {F : Type 0} (config : LadderConfig) (now : ℤ) (db : Db F) (b : TierBucket F)
    (time : IsI64 b.bucket_start_ms) where
  module _ (fl : Float F) (move : ArchiveMove F)
      (move-LeavesLower : (cutoff : ℤ) (n : ℕ) → LeavesLower (move cutoff n))
      (archive : ArchiveSettings) where
    after-Keeps :
        (v3 v4 : Option ℤ)
        → Read db.l3_folded_until_ms v3
        → Read db.l4_folded_until_ms v4
        → (p : Progress) (w : World (Db F)) → Kept config now db b time w.db
        → Kept config now db b time (after_watermarks fl move config archive now v3 v4 p w).1.db
    unfolding after_watermarks
    after-Keeps v3 v4 r3 r4 p0 w0 h0 =
        let (p1, w1) = promote_l3 fl config now p0 w0 in
        let h1 : Kept config now db b time w1.db =
          step-promote_l3 config now db b time fl p0 w0 h0 in
        let (p2, w2) = promote_l4 fl config now p1 w1 in
        let h2 : Kept config now db b time w2.db =
          step-promote_l4 config now db b time fl p1 w1 h1 in
        let (p3, w3) = prune_l1 config now p2 w2 in
        let h3 : Kept config now db b time w3.db =
          leaves-Keeps config now db b time (prune_l1 config now) (prune_l1-Leaves config now) p2 w2
            h2 in
        let (p4, w4) = prune_gpu config now p3 w3 in
        let h4 : Kept config now db b time w4.db =
          leaves-Keeps config now db b time (prune_gpu config now) (prune_gpu-Leaves config now) p3
            w3 h3 in
        let (p5, w5) = prune_sensors config now p4 w4 in
        let h5 : Kept config now db b time w5.db =
          leaves-Keeps config now db b time (prune_sensors config now)
            (prune_sensors-Leaves config now) p4 w4 h4 in
        let (p6, w6) = prune_details config now p5 w5 in
        let h6 : Kept config now db b time w6.db =
          leaves-Keeps config now db b time (prune_details config now)
            (prune_details-Leaves config now) p5 w5 h5 in
        let (p7, w7) = prune_fast config now p6 w6 in
        let h7 : Kept config now db b time w7.db =
          leaves-Keeps config now db b time (prune_fast config now) (prune_fast-Leaves config now)
            p6 w6 h6 in
        let (p8, w8) = prune_orphans p7 w7 in
        let h8 : Kept config now db b time w8.db =
          leaves-Keeps config now db b time prune_orphans prune_orphans-Leaves p7 w7 h7 in
        let (p9, w9) = prune_l2 config now v3 v4 p8 w8 in
        let h9 : Kept config now db b time w9.db =
          step-prune_l2 config now db b time v3 v4 r3 r4 p8 w8 h8 in
        let (p10, w10) = prune_l3 config now v4 p9 w9 in
        let h10 : Kept config now db b time w10.db =
          step-prune_l3 config now db b time v4 p9 w9 h9 in
        lower-Keeps config now db b time (expire_l4 move config archive now)
          (expire_l4-LeavesLower move move-LeavesLower config archive now) p10 w10 h10

    -- before the watermarks are read, they are those that the tick started with
    unfoldable Before : Db F → Type 0
    Before d =
        Kept config now db b time d
        × (d.l3_folded_until_ms ≡ db.l3_folded_until_ms)
        × (d.l4_folded_until_ms ≡ db.l4_folded_until_ms)

    known3 : (d : Db F) → Before d → d.l3_folded_until_ms ≡ db.l3_folded_until_ms
    unfolding Before
    known3 d (h, e3, e4) = e3

    known4 : (d : Db F) → Before d → d.l4_folded_until_ms ≡ db.l4_folded_until_ms
    unfolding Before
    known4 d (h, e3, e4) = e4

    leaves-Before : (s : Step F) → StepLeaves s → StepKeeps Before s
    unfolding Before
    leaves-Before s k p w (h, e3, e4) = (
      leaves-Keeps config now db b time s k p w h,
      ap (λ t. t.lower.l3_watermark) (k p w) ∙ e3,
      ap (λ t. t.lower.l4_watermark) (k p w) ∙ e4,
    )

    read-Before :
        (p : Progress) (w : World (Db F))
        → Before w.db
        → Kept config now db b time
            (read_watermark l3_folded_until_ms
              (λ v3.
                read_watermark l4_folded_until_ms
                  (λ v4. after_watermarks fl move config archive now v3 v4))
              p
              w).1.db
    unfolding Before
    read-Before p w h =
        read_l3-Takes Before (Kept config now db b time)
          (λ v3.
            read_watermark l4_folded_until_ms
              (λ v4. after_watermarks fl move config archive now v3 v4))
          db.l3_folded_until_ms (known3)
          (λ v3 r3 p' w' h'.
            read_l4-Takes Before (Kept config now db b time)
              (λ v4. after_watermarks fl move config archive now v3 v4) db.l4_folded_until_ms
              (known4) (λ v4 r4 p'' w'' h''. after-Keeps v3 v4 r3 r4 p'' w'' h''.0) p' w'.db
              w'.faults h')
          p w.db w.faults h

    steps-Keeps :
        (p : Progress) (w : World (Db F))
        → Before w.db
        → Kept config now db b time (steps fl move config archive now p w).1.db
    unfolding steps
    steps-Keeps p0 w0 h0 =
        let (p1, w1) = take_pending p0 w0 in
        let h1 : Before w1.db = leaves-Before take_pending take_pending-Leaves p0 w0 h0 in
        let (p2, w2) = persist_l3 (is_some config.l3) p1 w1 in
        let h2 : Before w2.db =
          leaves-Before (persist_l3 (is_some config.l3)) (persist_l3-Leaves (is_some config.l3)) p1
            w1 h1 in
        let (p3, w3) = persist_l4 (is_some config.l4) p2 w2 in
        let h3 : Before w3.db =
          leaves-Before (persist_l4 (is_some config.l4)) (persist_l4-Leaves (is_some config.l4)) p2
            w2 h2 in
        read-Before p3 w3 h3

-- Whichever statements of a tick fail, an L2 bucket with a start in the range of `i64` that is stored
-- when the tick begins is stored
-- when it ends, unless its end is at least the keep time of L2 in the past, and not after the
-- watermark stored when the tick began of the tier that is folded from L2: L3 if that is enabled,
-- else L4 if that is. Moving rows to the archive is assumed to leave the L2 and L3 tables and the
-- watermarks.
pub maintain_with_archive-keeps_l2 :
    {F : Type 0} (fl : Float F) (move : ArchiveMove F)
    → ((cutoff : ℤ) (n : ℕ) → LeavesLower (move cutoff n))
    → (config : LadderConfig) (archive : ArchiveSettings) (now : ℤ) (w : World (Db F))
      (b : TierBucket F)
    → IsI64 b.bucket_start_ms
    → Listed b w.db.metric_rollups_1m
    → Listed b (maintain_with_archive fl move config archive now w).1.db.metric_rollups_1m
      ⊎ MayGo config now w.db b
unfolding maintain_with_archive Before
maintain_with_archive-keeps_l2 fl move k config archive now w b time l =
    steps-Keeps config now w.db b time fl move k archive
      record { report = empty_report; first_error = none } w (inl l, refl, refl)

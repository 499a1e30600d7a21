-- ===== src/Maintenance/KeptL2.antt =====
-- The steps of a tick keep an L2 bucket that may not go.
use tinytop.Prelude.{
  ◌≡◌, sym, ap, true, not, ◌⊎◌, inl, inr, Option, none, some, List, arith, Bool-cases, Listed,
  keep_if-Listed,
}
use mathlib.Core.Path.{subst}
use tinytop.Prelude.Int.{ℤ, IsI64}
use tinytop.Retention.Defs.{LadderConfig}
use tinytop.Tiers.Defs.{l2, l3, l4, Float, TierBucket}
use tinytop.Store.Rows.{Db}
use tinytop.Store.Tables.{
  prune_rollups, delete_where, count_where, ends_by, upsert_tier_bucket, upsert_row,
}
use tinytop.Maintenance.Promote.{Watermark, l3_folded_until_ms, l4_folded_until_ms, set_watermark}
use tinytop.Maintenance.Defs.{to_i64_count, Step, promote_l3, promote_l4}
use tinytop.Maintenance.Prune.{l2_cutoff, prune_l2, prune_l3, prune_l3_if, l3_cutoff}
use tinytop.Maintenance.Keeps.{Keeps, StepKeeps, sql-Keeps, attempt-Keeps, skip-Keeps}
use tinytop.Maintenance.PromoteSteps
use tinytop.Maintenance.Frames.{StepLeaves, StepLeavesLower}
use tinytop.Maintenance.MayGo.{MayGo, Read, cutoff-MayGo}

module _ {F : Type 0} (config : LadderConfig) (now : ℤ) (db : Db F) (b : TierBucket F)
    (time : IsI64 b.bucket_start_ms) where
  -- the bucket is there, or may go
  abbrev pub Kept : Db F → Type 0
  Kept now_db = Listed b now_db.metric_rollups_1m ⊎ MayGo config now db b

  pub lower-Keeps : (s : Step F) → StepLeavesLower s → StepKeeps Kept s
  lower-Keeps s k p w h =
      subst (λ t. Listed b t ⊎ MayGo config now db b) (ap (λ t. t.l2_rows) (sym (k p w))) h

  pub leaves-Keeps : (s : Step F) → StepLeaves s → StepKeeps Kept s
  leaves-Keeps s k = lower-Keeps s (λ p w. ap (λ t. t.lower) (k p w))

  deleted-Keeps :
      (cutoff : ℤ) (rows : List (TierBucket F))
      → (ends_by l2 cutoff b ≡ true → MayGo config now db b)
      → (Listed b rows ⊎ MayGo config now db b)
      → Listed b (delete_where (ends_by l2 cutoff) rows) ⊎ MayGo config now db b
  unfolding delete_where
  deleted-Keeps cutoff rows k (inr m) = inr m
  deleted-Keeps cutoff rows k (inl l) = elim (Bool-cases (ends_by l2 cutoff b)) [
    | inl e ↦ inr (k e)
    | inr e ↦ inl (keep_if-Listed (λ r. not (ends_by l2 cutoff r)) b rows (ground arith) l)
  ]

  prune-Keeps :
      (cutoff : ℤ)
      → (ends_by l2 cutoff b ≡ true → MayGo config now db b)
      → Keeps Kept (prune_rollups l2 cutoff)
  unfolding prune_rollups
  prune-Keeps cutoff k =
      sql-Keeps Kept
        (λ db'. (
          count_where (ends_by l2 cutoff) db'.metric_rollups_1m,
          record db' { metric_rollups_1m = delete_where (ends_by l2 cutoff) db'.metric_rollups_1m },
        ))
        (λ db' h. deleted-Keeps cutoff db'.metric_rollups_1m k h)

  pub step-prune_l2 :
      (v3 v4 : Option ℤ)
      → Read db.l3_folded_until_ms v3
      → Read db.l4_folded_until_ms v4
      → StepKeeps Kept (prune_l2 config now v3 v4)
  unfolding prune_l2
  step-prune_l2 v3 v4 r3 r4 =
      attempt-Keeps Kept (prune_rollups l2 (l2_cutoff config now v3 v4))
        (λ count r. record r { pruned_l2 = to_i64_count count })
        (prune-Keeps (l2_cutoff config now v3 v4) (cutoff-MayGo config now db b time v3 v4 r3 r4))

  upsert_l3-Keeps : (x : TierBucket F) → Keeps Kept (upsert_tier_bucket l3 x)
  unfolding upsert_tier_bucket
  upsert_l3-Keeps x =
      sql-Keeps Kept (λ d. (tt, record d { metric_rollups_5m = upsert_row x d.metric_rollups_5m }))
        (λ d h. h)

  upsert_l4-Keeps : (x : TierBucket F) → Keeps Kept (upsert_tier_bucket l4 x)
  unfolding upsert_tier_bucket
  upsert_l4-Keeps x =
      sql-Keeps Kept (λ d. (tt, record d { metric_rollups_1h = upsert_row x d.metric_rollups_1h }))
        (λ d h. h)

  set_watermark-Keeps : (key : Watermark) (t : ℤ) → Keeps Kept (set_watermark key t)
  unfolding set_watermark
  set_watermark-Keeps l3_folded_until_ms t =
      sql-Keeps Kept (λ d. (tt, record d { l3_folded_until_ms = some t })) (λ d h. h)
  set_watermark-Keeps l4_folded_until_ms t =
      sql-Keeps Kept (λ d. (tt, record d { l4_folded_until_ms = some t })) (λ d h. h)

  module _ (fl : Float F) where
    pub step-promote_l3 : StepKeeps Kept (promote_l3 fl config now)
    step-promote_l3 =
        PromoteSteps.step-promote_l3 Kept config now upsert_l3-Keeps upsert_l4-Keeps
          set_watermark-Keeps fl

    pub step-promote_l4 : StepKeeps Kept (promote_l4 fl config now)
    step-promote_l4 =
        PromoteSteps.step-promote_l4 Kept config now upsert_l3-Keeps upsert_l4-Keeps
          set_watermark-Keeps fl

  prune_l3_at : (cutoff : ℤ) → Keeps Kept (prune_rollups l3 cutoff)
  unfolding prune_rollups
  prune_l3_at cutoff =
      sql-Keeps Kept
        (λ d. (
          count_where (ends_by l3 cutoff) d.metric_rollups_5m,
          record d { metric_rollups_5m = delete_where (ends_by l3 cutoff) d.metric_rollups_5m },
        ))
        (λ d h. h)

  step-prune_l3_if : (v4 keep : Option ℤ) → StepKeeps Kept (prune_l3_if config now v4 keep)
  unfolding prune_l3_if
  step-prune_l3_if v4 none = skip-Keeps Kept
  step-prune_l3_if v4 (some keep) =
      attempt-Keeps Kept (prune_rollups l3 (l3_cutoff config now keep v4))
        (λ count r. record r { pruned_l3 = to_i64_count count })
        (prune_l3_at (l3_cutoff config now keep v4))

  pub step-prune_l3 : (v4 : Option ℤ) → StepKeeps Kept (prune_l3 config now v4)
  unfolding prune_l3
  step-prune_l3 v4 = step-prune_l3_if v4 config.l3

-- ===== src/Maintenance/PromoteSteps.antt =====
-- The promotions of a tick keep any predicate that their writes keep.
use tinytop.Prelude.{is_some, Option, none, if◌then◌else◌}
use tinytop.Prelude.Int.{ℤ, pos}
use tinytop.Retention.Defs.{LadderConfig}
use tinytop.Tiers.Defs.{Tier, l2, l3, l4, Float, TierBucket, grace_ms}
use tinytop.Store.Rows.{Db}
use tinytop.Store.Tables.{upsert_tier_bucket}
use tinytop.Maintenance.Promote.{
  promote, Promotion, Watermark, l3_folded_until_ms, l4_folded_until_ms, set_watermark,
}
use tinytop.Maintenance.Defs.{
  attempt, skip, promote_l3, promote_l4, promote_l4_from, read_watermark, ◌then◌,
}
use tinytop.Maintenance.Keeps.{
  read-Keeps, Keeps, StepKeeps, attempt-Keeps, if-StepKeeps, skip-Keeps,
}
use tinytop.Maintenance.PromoteKeeps.{promote-Keeps}

module _ {F : Type 0} (Kept : Db F → Type 0) (config : LadderConfig) (now : ℤ)
    (upsert_l3-Keeps : (x : TierBucket F) → Keeps Kept (upsert_tier_bucket l3 x))
    (upsert_l4-Keeps : (x : TierBucket F) → Keeps Kept (upsert_tier_bucket l4 x))
    (set_watermark-Keeps : (key : Watermark) (t : ℤ) → Keeps Kept (set_watermark key t)) where
  module _ (fl : Float F) where
    pub step-promote_l3 : StepKeeps Kept (promote_l3 fl config now)
    unfolding promote_l3
    step-promote_l3 =
        let p : Promotion = record {
          source_tier = l2;
          target_tier = l3;
          watermark = l3_folded_until_ms;
          now_ms = now;
          grace_ms = grace_ms config.poll_interval_ms;
          source_folded_until_ms = none;
        } in
        if-StepKeeps Kept (is_some config.l3)
          (attempt (promote fl p) (λ count r. record r { promoted_l3 = pos count })) skip
          (attempt-Keeps Kept (promote fl p) (λ count r. record r { promoted_l3 = pos count })
            (promote-Keeps Kept fl p upsert_l3-Keeps (set_watermark-Keeps l3_folded_until_ms)))
          (skip-Keeps Kept)

    step-promote_l4_from :
        (source : Tier) (v : Option ℤ) → StepKeeps Kept (promote_l4_from fl config now source v)
    unfolding promote_l4_from
    step-promote_l4_from source v =
        let p : Promotion = record {
          source_tier = source;
          target_tier = l4;
          watermark = l4_folded_until_ms;
          now_ms = now;
          grace_ms = grace_ms config.poll_interval_ms;
          source_folded_until_ms = v;
        } in
        attempt-Keeps Kept (promote fl p) (λ count r. record r { promoted_l4 = pos count })
          (promote-Keeps Kept fl p upsert_l4-Keeps (set_watermark-Keeps l4_folded_until_ms))

    pub step-promote_l4 : StepKeeps Kept (promote_l4 fl config now)
    unfolding promote_l4
    step-promote_l4 =
        let from_l3 =
          read_watermark l3_folded_until_ms (λ value. promote_l4_from fl config now l3 value) in
        let from_l2 = promote_l4_from fl config now l2 none in
        if-StepKeeps Kept (is_some config.l4) (if is_some config.l3 then from_l3 else from_l2) skip
          (if-StepKeeps Kept (is_some config.l3) from_l3 from_l2
            (read-Keeps Kept l3_folded_until_ms (λ value. promote_l4_from fl config now l3 value)
              (step-promote_l4_from l3))
            (step-promote_l4_from l2 none))
          (skip-Keeps Kept)

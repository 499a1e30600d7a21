-- ===== src/Maintenance/Refold.antt =====
-- `refold_ancestors_for_late_write` and `refold_one` of maintenance.rs: a sample that arrives after its
-- range was folded is folded into the coarser buckets.
use tinytop.Prelude.{
  Bool, true, false, ◌&&◌, ◌||◌, Option, none, some, List, [], ◌∷◌, ◌++◌, if◌then◌else◌, unwrap_or,
}
use tinytop.Prelude.Int.{ℤ, pos, ltb_ℤ, leb_ℤ, saturating_add, saturating_sub, saturating_mul}
use tinytop.Retention.Defs.{RetentionLadder, day_ms}
use tinytop.Tiers.Defs.{
  Tier, l2, l3, l4, Float, TierBucket, resolution_ms, bucket_start_for, sum_counts, fold,
}
use tinytop.Store.Exec.{Exec, pure, query, ◌>>=◌, ◌>>◌}
use tinytop.Store.Rows.{Db}
use tinytop.Store.Tables.{read_tier_buckets, upsert_tier_bucket}

-- how `refold_one` is called
pub record Refold (F : Type 0) : Type 0 where
  pub source_tier : Tier
  pub target_tier : Tier
  pub target_start_ms : ℤ
  pub now_ms : ℤ
  pub source_keep_days : ℤ
  pub new_sample : TierBucket F
  pub new_raw_row : Bool

module _ {F : Type 0} (r : Refold F) where
  unfoldable pub target_end_ms : ℤ
  target_end_ms = saturating_add r.target_start_ms (pos (resolution_ms r.target_tier))

  -- the source still has every bucket of the range
  unfoldable pub source_holds_whole_range : List (TierBucket F) → Bool
  unfolding sum_counts
  source_holds_whole_range finer =
      ltb_ℤ (pos 0) (sum_counts finer)
      && leb_ℤ (saturating_sub r.now_ms (saturating_mul r.source_keep_days day_ms))
          r.target_start_ms

module _ {F : Type 0} (fl : Float F) where
  unfoldable pub write_bucket : Tier → Option (TierBucket F) → Exec (Db F) (Unit {0})
  unfolding upsert_tier_bucket
  write_bucket tier none = pure tt
  write_bucket tier (some bucket) = upsert_tier_bucket tier bucket

  module _ (r : Refold F) where
    -- the fold of the source, or of the stored bucket and the new sample
    unfoldable pub refold_from : List (TierBucket F) → Exec (Db F) (Option (TierBucket F))
    unfolding source_holds_whole_range target_end_ms read_tier_buckets fold
    refold_from finer =
        if source_holds_whole_range r finer
        then pure (fold fl r.target_start_ms finer)
        else (read_tier_buckets r.target_tier r.target_start_ms (target_end_ms r) >>= λ merge.
            pure (fold fl r.target_start_ms (merge ++ r.new_sample ∷ [])))

    -- nothing is done for a range that the source has lost, if the row was there before
    unfoldable pub refold_read : List (TierBucket F) → Exec (Db F) (Unit {0})
    unfolding source_holds_whole_range refold_from write_bucket
    refold_read finer =
        if source_holds_whole_range r finer || r.new_raw_row
        then (refold_from finer >>= write_bucket r.target_tier)
        else pure tt

    unfoldable pub refold_one : Exec (Db F) (Unit {0})
    unfolding target_end_ms read_tier_buckets refold_read
    refold_one = do
      finer ← read_tier_buckets r.source_tier r.target_start_ms (target_end_ms r)
      refold_read finer

-- `watermark.is_some_and(|watermark| start < watermark)`
unfoldable pub is_folded : ℤ → Option ℤ → Bool
is_folded start none = false
is_folded start (some watermark) = ltb_ℤ start watermark

module _ {F : Type 0} (fl : Float F) where
  unfoldable pub refold_if : Bool → Option ℤ → Refold F → Exec (Db F) (Unit {0})
  unfolding is_folded refold_one
  refold_if enabled watermark r =
      if enabled && is_folded r.target_start_ms watermark then refold_one fl r else pure tt

-- a late sample
pub record LateWrite (F : Type 0) : Type 0 where
  pub captured_at_ms : ℤ
  pub now_ms : ℤ
  pub ladder : RetentionLadder
  pub new_sample : TierBucket F
  pub new_raw_row : Bool

module _ {F : Type 0} (late : LateWrite F) where
  -- the bucket of L3 that the sample belongs to
  unfoldable pub refold_l3 : Refold F
  unfolding bucket_start_for resolution_ms
  refold_l3 = record {
    source_tier = l2;
    target_tier = l3;
    target_start_ms = bucket_start_for (resolution_ms l3) late.captured_at_ms;
    now_ms = late.now_ms;
    source_keep_days = late.ladder.l2.keep_days;
    new_sample = late.new_sample;
    new_raw_row = late.new_raw_row;
  }

  -- that of L4, folded from L3 if that is enabled
  unfoldable pub refold_l4 : Bool → Refold F
  unfolding bucket_start_for resolution_ms
  refold_l4 l3_enabled = record {
    source_tier = if l3_enabled then l3 else l2;
    target_tier = l4;
    target_start_ms = bucket_start_for (resolution_ms l4) late.captured_at_ms;
    now_ms = late.now_ms;
    source_keep_days = if l3_enabled then late.ladder.l3.keep_days else late.ladder.l2.keep_days;
    new_sample = late.new_sample;
    new_raw_row = late.new_raw_row;
  }

  unfoldable pub refold_ancestors_for_late_write : Float F → Exec (Db F) (Unit {0})
  unfolding refold_l3 refold_l4 refold_if
  refold_ancestors_for_late_write fl = do
    l3_watermark ← query (λ db. db.l3_folded_until_ms)
    l4_watermark ← query (λ db. db.l4_folded_until_ms)
    l3_flag ← query (λ db. db.l3_enabled)
    l4_flag ← query (λ db. db.l4_enabled)
    refold_if fl (unwrap_or true l3_flag) l3_watermark refold_l3
    refold_if fl (unwrap_or true l4_flag) l4_watermark (refold_l4 (unwrap_or true l3_flag))

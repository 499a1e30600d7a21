-- ===== src/Maintenance/Promote.antt =====
-- `promote` of maintenance.rs: a tier's buckets are folded into the next tier.
use tinytop.Prelude.{
  ℕ, zero, suc, ltb, Bool, true, false, Option, none, some, length, if◌then◌else◌, unwrap_or,
}
use tinytop.Prelude.Int.{ℤ, pos, ltb_ℤ, i64_min, saturating_add}
use tinytop.Tiers.Defs.{Tier, Float, TierBucket, resolution_ms, bucket_start_for, is_complete, fold}
use tinytop.Store.Exec.{Exec, pure, query, update, ◌>>=◌, ◌>>◌}
use tinytop.Store.Rows.{Db}
use tinytop.Store.Tables.{
  table, read_tier_buckets, upsert_tier_bucket, oldest_tier_bucket_start_at_or_after,
}

abbrev pub max_promotions_per_tick : ℕ
max_promotions_per_tick = 50

-- the two keys that `promote` is called with
pub data Watermark : Type 0 where
  l3_folded_until_ms l4_folded_until_ms : Watermark

module _ {F : Type 0} where
  unfoldable pub get_watermark : Watermark → Exec (Db F) (Option ℤ)
  get_watermark l3_folded_until_ms = query (λ db. db.l3_folded_until_ms)
  get_watermark l4_folded_until_ms = query (λ db. db.l4_folded_until_ms)

  unfoldable pub set_watermark : Watermark → ℤ → Exec (Db F) (Unit {0})
  set_watermark l3_folded_until_ms t = update (λ db. record db { l3_folded_until_ms = some t })
  set_watermark l4_folded_until_ms t = update (λ db. record db { l4_folded_until_ms = some t })

-- `source_folded_until_ms.is_some_and(|watermark| target_end_ms > watermark)`
unfoldable pub is_beyond : ℤ → Option ℤ → Bool
is_beyond target_end_ms none = false
is_beyond target_end_ms (some watermark) = ltb_ℤ watermark target_end_ms

-- how a promotion is called
pub record Promotion : Type 0 where
  pub source_tier : Tier
  pub target_tier : Tier
  pub watermark : Watermark
  pub now_ms : ℤ
  pub grace_ms : ℤ
  pub source_folded_until_ms : Option ℤ

module _ (p : Promotion) where
  unfoldable pub target_end : ℤ → ℤ
  target_end target_start_ms = saturating_add target_start_ms (pos (resolution_ms p.target_tier))

  -- whether the range of a source bucket may be promoted: no `break`
  unfoldable pub is_ready : ℤ → Bool
  unfolding is_beyond target_end
  is_ready target_start_ms =
      if is_complete target_start_ms (resolution_ms p.target_tier) p.grace_ms p.now_ms
      then (if is_beyond (target_end target_start_ms) p.source_folded_until_ms then false else true)
      else false

module _ {F : Type 0} (fl : Float F) (p : Promotion) where
  -- writes the fold of a range and the watermark, unless the range folds to nothing; says whether
  -- it wrote
  unfoldable pub write_fold : ℤ → ℤ → Option (TierBucket F) → Exec (Db F) Bool
  unfolding upsert_tier_bucket set_watermark
  write_fold target_start_ms target_end_ms none = pure false
  write_fold target_start_ms target_end_ms (some bucket) = do
    upsert_tier_bucket p.target_tier bucket
    set_watermark p.watermark target_end_ms
    pure true

  -- the part of the loop below the two `break`s
  unfoldable pub promote_range : ℤ → ℤ → Exec (Db F) Bool
  unfolding read_tier_buckets write_fold
  promote_range target_start_ms target_end_ms = do
    finer ← read_tier_buckets p.source_tier target_start_ms target_end_ms
    write_fold target_start_ms target_end_ms (fold fl target_start_ms finer)

  -- the body of the loop, once the oldest source bucket is read; `next` is the next iteration
  unfoldable pub promote_next : (ℤ → ℕ → Exec (Db F) ℕ) → ℕ → Option ℤ → Exec (Db F) ℕ
  unfolding promote_range is_ready target_end
  promote_next next promoted none = pure promoted
  promote_next next promoted (some source_start_ms) =
      let target_start_ms = bucket_start_for (resolution_ms p.target_tier) source_start_ms in
      let target_end_ms = target_end p target_start_ms in
      if is_ready p target_start_ms
      then (promote_range target_start_ms target_end_ms >>= λ wrote.
          next target_end_ms (if wrote then suc promoted else promoted))
      else pure promoted

  -- the loop; the fuel bounds its iterations
  unfoldable pub promote_loop : ℕ → ℤ → ℕ → Exec (Db F) ℕ
  unfolding oldest_tier_bucket_start_at_or_after promote_next
  promote_loop zero search_from_ms promoted = pure promoted
  promote_loop (suc fuel) search_from_ms promoted =
      if ltb promoted max_promotions_per_tick
      then (oldest_tier_bucket_start_at_or_after p.source_tier search_from_ms
          >>= promote_next (promote_loop fuel) promoted)
      else pure promoted

  -- each iteration passes a source row, so that one more than the rows are enough
  unfoldable pub promote : Exec (Db F) ℕ
  unfolding get_watermark promote_loop table
  promote = do
    watermark ← get_watermark p.watermark
    λ w. promote_loop (suc (length (table p.source_tier w.db))) (unwrap_or i64_min watermark) 0 w

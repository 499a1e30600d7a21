-- ===== src/Store/Tables.antt =====
-- The statements of lib.rs on the tables of the tiers: `read_tier_buckets`, `upsert_tier_bucket`,
-- `oldest_tier_bucket_start_at_or_after`, `prune_rollups` and `prune_raw_history`.
use tinytop.Prelude.{
  ℕ, Bool, not, ◌&&◌, Option, List, [], ◌∷◌, map, length, keep_if, reduce, if◌then◌else◌,
  validation, reserved,
}
use tinytop.Prelude.Int.{ℤ, pos, ◌+ℤ◌, leb_ℤ, ltb_ℤ, eqb_ℤ, min_ℤ}
use tinytop.Tiers.Defs.{Tier, l1, l2, l3, l4, TierBucket, raw_to_bucket, resolution_ms}
use tinytop.Store.Exec.{Exec, sql, query, update, raise}
use tinytop.Store.Rows.{Db}

-- `DELETE … WHERE p`, and the number of rows it deletes
unfoldable pub delete_where {ℓ} : {A : Type ℓ} → (A → Bool) → List A → List A
delete_where p rows = keep_if (λ r. not (p r)) rows

unfoldable pub count_where {ℓ} : {A : Type ℓ} → (A → Bool) → List A → ℕ
count_where p rows = length (keep_if p rows)

unfoldable pub oldest_start : ℤ → List ℤ → Option ℤ
oldest_start since_ms starts = reduce min_ℤ (keep_if (λ t. leb_ℤ since_ms t) starts)

module _ {F : Type 0} where
  -- `INSERT … ON CONFLICT(bucket_start_ms) DO UPDATE`, in the order of the key
  unfoldable pub upsert_row : TierBucket F → List (TierBucket F) → List (TierBucket F)
  upsert_row b [] = b ∷ []
  upsert_row b (x ∷ xs) =
      let rest = upsert_row b xs in
      if eqb_ℤ b.bucket_start_ms x.bucket_start_ms
      then b ∷ xs
      else if ltb_ℤ b.bucket_start_ms x.bucket_start_ms
      then b ∷ x ∷ xs
      else x ∷ rest

  -- a bucket ends at or before the cutoff
  unfoldable pub ends_by : Tier → ℤ → TierBucket F → Bool
  ends_by tier cutoff b = leb_ℤ (b.bucket_start_ms +ℤ pos (resolution_ms tier)) cutoff

  -- a row of the half-open range
  unfoldable pub in_range : ℤ → ℤ → TierBucket F → Bool
  in_range since_ms until_ms b =
      leb_ℤ since_ms b.bucket_start_ms && ltb_ℤ b.bucket_start_ms until_ms

  -- the rows of a tier's table; those of L1 become buckets of one sample
  unfoldable pub table : Tier → Db F → List (TierBucket F)
  table l1 db = map raw_to_bucket db.metric_samples
  table l2 db = db.metric_rollups_1m
  table l3 db = db.metric_rollups_5m
  table l4 db = db.metric_rollups_1h

  unfoldable pub read_tier_buckets : Tier → ℤ → ℤ → Exec (Db F) (List (TierBucket F))
  unfolding table in_range
  read_tier_buckets tier since_ms until_ms =
      query (λ db. keep_if (in_range since_ms until_ms) (table tier db))

  unfoldable pub upsert_tier_bucket : Tier → TierBucket F → Exec (Db F) (Unit {0})
  unfolding upsert_row
  upsert_tier_bucket l1 b = raise (validation (reserved "Tier::L1"))
  upsert_tier_bucket l2 b =
      update (λ db. record db { metric_rollups_1m = upsert_row b db.metric_rollups_1m })
  upsert_tier_bucket l3 b =
      update (λ db. record db { metric_rollups_5m = upsert_row b db.metric_rollups_5m })
  upsert_tier_bucket l4 b =
      update (λ db. record db { metric_rollups_1h = upsert_row b db.metric_rollups_1h })

  unfoldable pub oldest_tier_bucket_start_at_or_after : Tier → ℤ → Exec (Db F) (Option ℤ)
  unfolding table oldest_start
  oldest_tier_bucket_start_at_or_after tier since_ms =
      query (λ db. oldest_start since_ms (map (λ b. b.bucket_start_ms) (table tier db)))

  unfoldable pub prune_rollups : Tier → ℤ → Exec (Db F) ℕ
  unfolding delete_where count_where ends_by
  prune_rollups l1 cutoff = raise (validation (reserved "Tier::L1"))
  prune_rollups l2 cutoff = sql (λ db. (
    count_where (ends_by l2 cutoff) db.metric_rollups_1m,
    record db { metric_rollups_1m = delete_where (ends_by l2 cutoff) db.metric_rollups_1m },
  ))
  prune_rollups l3 cutoff = sql (λ db. (
    count_where (ends_by l3 cutoff) db.metric_rollups_5m,
    record db { metric_rollups_5m = delete_where (ends_by l3 cutoff) db.metric_rollups_5m },
  ))
  prune_rollups l4 cutoff = sql (λ db. (
    count_where (ends_by l4 cutoff) db.metric_rollups_1h,
    record db { metric_rollups_1h = delete_where (ends_by l4 cutoff) db.metric_rollups_1h },
  ))

  unfoldable pub prune_raw_history : ℤ → Exec (Db F) ℕ
  unfolding delete_where count_where
  prune_raw_history cutoff = sql (λ db. (
    count_where (λ r. ltb_ℤ r.captured_at_ms cutoff) db.metric_samples,
    record db {
      metric_samples = delete_where (λ r. ltb_ℤ r.captured_at_ms cutoff) db.metric_samples;
    },
  ))

  unfoldable pub prune_gpu_history : ℤ → Exec (Db F) ℕ
  unfolding delete_where count_where
  prune_gpu_history cutoff = sql (λ db. (
    count_where (λ t. ltb_ℤ t cutoff) db.gpu_samples,
    record db { gpu_samples = delete_where (λ t. ltb_ℤ t cutoff) db.gpu_samples },
  ))

  unfoldable pub prune_sensor_history : ℤ → Exec (Db F) ℕ
  unfolding delete_where count_where
  prune_sensor_history cutoff = sql (λ db. (
    count_where (λ t. ltb_ℤ t cutoff) db.sensor_samples,
    record db { sensor_samples = delete_where (λ t. ltb_ℤ t cutoff) db.sensor_samples },
  ))

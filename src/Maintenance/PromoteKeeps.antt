-- ===== src/Maintenance/PromoteKeeps.antt =====
-- What a promotion keeps: any predicate that its writes to the target tier and to the watermark keep.
use tinytop.Prelude.{
  ℕ, zero, suc, ltb, keep_if, true, Option, none, some, map, length, if◌then◌else◌, unwrap_or,
}
use tinytop.Prelude.Int.{ℤ, i64_min}
use tinytop.Tiers.Defs.{Float, TierBucket, resolution_ms, bucket_start_for, fold}
use tinytop.Store.Exec.{Exec, pure, query, ◌>>=◌, ◌>>◌}
use tinytop.Store.Rows.{Db}
use tinytop.Store.Tables.{
  table, in_range, oldest_start, read_tier_buckets, upsert_tier_bucket,
  oldest_tier_bucket_start_at_or_after,
}
use tinytop.Maintenance.Promote.{
  Promotion, Watermark, l3_folded_until_ms, l4_folded_until_ms, get_watermark, set_watermark,
  write_fold, promote_range, target_end, is_ready, promote_next, promote_loop, promote,
  max_promotions_per_tick,
}
use tinytop.Maintenance.Keeps.{Keeps, sql-Keeps, bind-Keeps, if-Keeps}

module _ {F : Type 0} (P : Db F → Type 0) where
  query-Keeps : {A : Type 0} (f : Db F → A) → Keeps P (query f)
  query-Keeps f = sql-Keeps P (λ db. (f db, db)) (λ db h. h)

  get_watermark-Keeps : (key : Watermark) → Keeps P (get_watermark key)
  unfolding get_watermark
  get_watermark-Keeps l3_folded_until_ms = query-Keeps (λ db. db.l3_folded_until_ms)
  get_watermark-Keeps l4_folded_until_ms = query-Keeps (λ db. db.l4_folded_until_ms)

  module _ (fl : Float F) (p : Promotion)
      (writes : (b : TierBucket F) → Keeps P (upsert_tier_bucket p.target_tier b))
      (marks : (t : ℤ) → Keeps P (set_watermark p.watermark t)) where
    write_fold-Keeps : (s e : ℤ) (o : Option (TierBucket F)) → Keeps P (write_fold fl p s e o)
    unfolding write_fold
    write_fold-Keeps s e none = λ w h. h
    write_fold-Keeps s e (some b) =
        bind-Keeps P (upsert_tier_bucket p.target_tier b)
          (λ _. set_watermark p.watermark e >> pure true) (writes b)
          (λ _. bind-Keeps P (set_watermark p.watermark e) (λ _. pure true) (marks e) (λ _ w h. h))

    pub promote_range-Keeps : (s e : ℤ) → Keeps P (promote_range fl p s e)
    unfolding promote_range read_tier_buckets
    promote_range-Keeps s e =
        bind-Keeps P (read_tier_buckets p.source_tier s e)
          (λ finer. write_fold fl p s e (fold fl s finer))
          (query-Keeps (λ db. keep_if (in_range s e) (table p.source_tier db)))
          (λ finer. write_fold-Keeps s e (fold fl s finer))

    promote_next-Keeps :
        (next : ℤ → ℕ → Exec (Db F) ℕ)
        → ((t : ℤ) (n : ℕ) → Keeps P (next t n))
        → (n : ℕ) (o : Option ℤ) → Keeps P (promote_next fl p next n o)
    unfolding promote_next
    promote_next-Keeps next k n none = λ w h. h
    promote_next-Keeps next k n (some s) =
        let start = bucket_start_for (resolution_ms p.target_tier) s in
        let end = target_end p start in
        if-Keeps P (is_ready p start)
          (promote_range fl p start end >>= λ wrote. next end (if wrote then suc n else n)) (pure n)
          (bind-Keeps P (promote_range fl p start end)
            (λ wrote. next end (if wrote then suc n else n)) (promote_range-Keeps start end)
            (λ wrote. k end (if wrote then suc n else n)))
          (λ w h. h)

    promote_loop-Keeps : (fuel : ℕ) (from : ℤ) (n : ℕ) → Keeps P (promote_loop fl p fuel from n)
    unfolding promote_loop oldest_tier_bucket_start_at_or_after
    promote_loop-Keeps zero from n = λ w h. h
    promote_loop-Keeps (suc fuel) from n =
        if-Keeps P (ltb n max_promotions_per_tick)
          (oldest_tier_bucket_start_at_or_after p.source_tier from
            >>= promote_next fl p (promote_loop fl p fuel) n)
          (pure n)
          (bind-Keeps P (oldest_tier_bucket_start_at_or_after p.source_tier from)
            (promote_next fl p (promote_loop fl p fuel) n)
            (query-Keeps
              (λ db. oldest_start from (map (λ b. b.bucket_start_ms) (table p.source_tier db))))
            (promote_next-Keeps (promote_loop fl p fuel) (promote_loop-Keeps fuel) n))
          (λ w h. h)

    pub promote-Keeps : Keeps P (promote fl p)
    unfolding promote
    promote-Keeps =
        bind-Keeps P (get_watermark p.watermark)
          (λ watermark w.
            promote_loop fl p (suc (length (table p.source_tier w.db)))
              (unwrap_or i64_min watermark) 0 w)
          (get_watermark-Keeps p.watermark)
          (λ watermark w.
            promote_loop-Keeps (suc (length (table p.source_tier w.db)))
              (unwrap_or i64_min watermark) 0 w)

-- ===== src/Maintenance/RefoldKeeps.antt =====
-- What a late write leaves alone.
use tinytop.Prelude.{
  ◌≡◌, ◌≢◌, refl, sym, ap, ◌∙◌, Bool, true, false, ◌&&◌, ◌||◌, inl, inr, Option, none, some, List,
  [], ◌∷◌, ◌++◌, Listed, if◌then◌else◌, unwrap_or, Result-cases, arith, keep_if,
}
use tinytop.Prelude.Int.{ℤ, eqb_ℤ, eqb_ℤ_iff, ltb_ℤ}
use tinytop.Tiers.Defs.{
  Tier, l1, l2, l3, l4, Float, TierBucket, fold, build, resolution_ms, bucket_start_for,
}
use tinytop.Store.Exec.{World, Exec, pure, query, ◌>>=◌, ◌>>◌, >>=-of_ok, >>=-of_err}
use mathlib.Core.Path.{subst}
use tinytop.Store.Rows.{Db}
use tinytop.Store.Tables.{table, in_range, read_tier_buckets, upsert_tier_bucket, upsert_row}
use tinytop.Maintenance.Keeps.{Keeps, sql-Keeps, bind-Keeps, if-Keeps}
use tinytop.Maintenance.Refold.{
  Refold, LateWrite, target_end_ms, source_holds_whole_range, write_bucket, refold_from,
  refold_read, refold_one, is_folded, refold_l3, refold_l4, refold_if,
  refold_ancestors_for_late_write,
}

module _ {F : Type 0} where
  row_stays :
      (same before : Bool) (b x y : TierBucket F) (ys rest : List (TierBucket F))
      → (same ≡ true → b.bucket_start_ms ≡ y.bucket_start_ms)
      → x.bucket_start_ms ≢ b.bucket_start_ms
      → (Listed x ys → Listed x rest)
      → Listed x (y ∷ ys)
      → Listed x (if same then b ∷ ys else if before then b ∷ y ∷ ys else y ∷ rest)
  row_stays true q b x y ys rest e n k (inl p) =
      absurd (n (ap (λ r. r.bucket_start_ms) p ∙ sym (e refl)))
  row_stays true q b x y ys rest e n k (inr l) = inr l
  row_stays false true b x y ys rest e n k l = inr l
  row_stays false false b x y ys rest e n k (inl p) = inl p
  row_stays false false b x y ys rest e n k (inr l) = inr (k l)

  -- a row with another start stays
  upsert_row-Listed :
      (b x : TierBucket F) (rows : List (TierBucket F))
      → x.bucket_start_ms ≢ b.bucket_start_ms
      → Listed x rows
      → Listed x (upsert_row b rows)
  unfolding upsert_row
  upsert_row-Listed b x [] n l = absurd l
  upsert_row-Listed b x (y ∷ ys) n l =
      row_stays (eqb_ℤ b.bucket_start_ms y.bucket_start_ms)
        (ltb_ℤ b.bucket_start_ms y.bucket_start_ms) b x y ys (upsert_row b ys)
        ((eqb_ℤ_iff b.bucket_start_ms y.bucket_start_ms).0) n (upsert_row-Listed b x ys n) l

  fold_start :
      (fl : Float F) (s : ℤ) (bs : List (TierBucket F)) (b : TierBucket F)
      → fold fl s bs ≡ some b
      → b.bucket_start_ms ≡ s
  unfolding fold build
  fold_start fl s [] b h = cc
  fold_start fl s (c ∷ cs) b h = ground (arith, h)

  write-Keeps :
      (tier target : Tier) (x b : TierBucket F)
      → (target ≡ tier → x.bucket_start_ms ≢ b.bucket_start_ms)
      → Keeps (λ db. Listed x (table tier db)) (upsert_tier_bucket target b)
  unfolding upsert_tier_bucket table
  write-Keeps tier l1 x b n = λ w h. h
  write-Keeps l2 l2 x b n =
      sql-Keeps (λ db. Listed x db.metric_rollups_1m)
        (λ db. (tt, record db { metric_rollups_1m = upsert_row b db.metric_rollups_1m }))
        (λ db. upsert_row-Listed b x db.metric_rollups_1m (n refl))
  write-Keeps l3 l3 x b n =
      sql-Keeps (λ db. Listed x db.metric_rollups_5m)
        (λ db. (tt, record db { metric_rollups_5m = upsert_row b db.metric_rollups_5m }))
        (λ db. upsert_row-Listed b x db.metric_rollups_5m (n refl))
  write-Keeps l4 l4 x b n =
      sql-Keeps (λ db. Listed x db.metric_rollups_1h)
        (λ db. (tt, record db { metric_rollups_1h = upsert_row b db.metric_rollups_1h }))
        (λ db. upsert_row-Listed b x db.metric_rollups_1h (n refl))
  write-Keeps l1 l2 x b n =
      sql-Keeps (λ db. Listed x (table l1 db))
        (λ db. (tt, record db { metric_rollups_1m = upsert_row b db.metric_rollups_1m }))
        (λ db h. h)
  write-Keeps l1 l3 x b n =
      sql-Keeps (λ db. Listed x (table l1 db))
        (λ db. (tt, record db { metric_rollups_5m = upsert_row b db.metric_rollups_5m }))
        (λ db h. h)
  write-Keeps l1 l4 x b n =
      sql-Keeps (λ db. Listed x (table l1 db))
        (λ db. (tt, record db { metric_rollups_1h = upsert_row b db.metric_rollups_1h }))
        (λ db h. h)
  write-Keeps l2 l3 x b n =
      sql-Keeps (λ db. Listed x (table l2 db))
        (λ db. (tt, record db { metric_rollups_5m = upsert_row b db.metric_rollups_5m }))
        (λ db h. h)
  write-Keeps l2 l4 x b n =
      sql-Keeps (λ db. Listed x (table l2 db))
        (λ db. (tt, record db { metric_rollups_1h = upsert_row b db.metric_rollups_1h }))
        (λ db h. h)
  write-Keeps l3 l2 x b n =
      sql-Keeps (λ db. Listed x (table l3 db))
        (λ db. (tt, record db { metric_rollups_1m = upsert_row b db.metric_rollups_1m }))
        (λ db h. h)
  write-Keeps l3 l4 x b n =
      sql-Keeps (λ db. Listed x (table l3 db))
        (λ db. (tt, record db { metric_rollups_1h = upsert_row b db.metric_rollups_1h }))
        (λ db h. h)
  write-Keeps l4 l2 x b n =
      sql-Keeps (λ db. Listed x (table l4 db))
        (λ db. (tt, record db { metric_rollups_1m = upsert_row b db.metric_rollups_1m }))
        (λ db h. h)
  write-Keeps l4 l3 x b n =
      sql-Keeps (λ db. Listed x (table l4 db))
        (λ db. (tt, record db { metric_rollups_5m = upsert_row b db.metric_rollups_5m }))
        (λ db h. h)

  bind_pure-Keeps :
      {A B C : Type 0} (P : Db F → Type 0) (m : Exec (Db F) A) (g : A → B) (f : B → Exec (Db F) C)
      → Keeps P m
      → ((a : A) → Keeps P (f (g a)))
      → Keeps P ((m >>= λ a. pure (g a)) >>= f)
  bind_pure-Keeps P m g f km kf w h = elim (Result-cases (m w).0) [
    | inl (a, e) ↦
        let first = >>=-of_ok m (λ v. pure (g v)) w a e in
        let all = >>=-of_ok (m >>= λ v. pure (g v)) f w (g a) (ap (λ r. r.0) first) in
        subst (λ r. P r.1.db) (sym (all ∙ ap (λ r. f (g a) r.1) first)) (kf a (m w).1 (km w h))
    | inr (x, e) ↦
        let first = >>=-of_err m (λ v. pure (g v)) w x e in
        let all = >>=-of_err (m >>= λ v. pure (g v)) f w x (ap (λ r. r.0) first) in
        subst (λ r. P r.1.db) (sym all) (subst (λ r. P r.1.db) (sym first) (km w h))
  ]

  query-Keeps : {A : Type 0} (P : Db F → Type 0) (f : Db F → A) → Keeps P (query f)
  query-Keeps P f = sql-Keeps P (λ db. (f db, db)) (λ db h. h)

  module _ (P : Db F → Type 0) (fl : Float F) (r : Refold F)
      (writes : (b : TierBucket F)
        → b.bucket_start_ms ≡ r.target_start_ms
        → Keeps P (upsert_tier_bucket r.target_tier b)) where
    write_fold-Keeps :
        (bs : List (TierBucket F)) (o : Option (TierBucket F))
        → fold fl r.target_start_ms bs ≡ o
        → Keeps P (write_bucket fl r.target_tier o)
    unfolding write_bucket
    write_fold-Keeps bs none e = λ w h. h
    write_fold-Keeps bs (some b) e = writes b (fold_start fl r.target_start_ms bs b e)

    -- the fold of a choice, and its write
    choice-Keeps :
        (whole : Bool) (finer : List (TierBucket F)) (merge : Exec (Db F) (List (TierBucket F)))
        → Keeps P merge
        → Keeps P (
            (if whole
              then pure (fold fl r.target_start_ms finer)
              else (merge >>= λ rows. pure (fold fl r.target_start_ms (rows ++ r.new_sample ∷ []))))
            >>= write_bucket fl r.target_tier)
    choice-Keeps true finer merge k = write_fold-Keeps finer (fold fl r.target_start_ms finer) refl
    choice-Keeps false finer merge k =
        bind_pure-Keeps P merge (λ rows. fold fl r.target_start_ms (rows ++ r.new_sample ∷ []))
          (write_bucket fl r.target_tier) k
          (λ rows.
            write_fold-Keeps (rows ++ r.new_sample ∷ [])
              (fold fl r.target_start_ms (rows ++ r.new_sample ∷ [])) refl)

    read-Keeps : (tier : Tier) (s e : ℤ) → Keeps P (read_tier_buckets tier s e)
    unfolding read_tier_buckets
    read-Keeps tier s e = query-Keeps P (λ db. keep_if (in_range s e) (table tier db))

    refold_read-Keeps : (finer : List (TierBucket F)) → Keeps P (refold_read fl r finer)
    unfolding refold_read refold_from
    refold_read-Keeps finer =
        let whole = source_holds_whole_range r finer in
        if-Keeps P (whole || r.new_raw_row)
          (refold_from fl r finer >>= write_bucket fl r.target_tier) (pure tt)
          (choice-Keeps whole finer
            (read_tier_buckets r.target_tier r.target_start_ms (target_end_ms r))
            (read-Keeps r.target_tier r.target_start_ms (target_end_ms r)))
          (λ w h. h)

    refold_one-Keeps : Keeps P (refold_one fl r)
    unfolding refold_one
    refold_one-Keeps =
        bind-Keeps P (read_tier_buckets r.source_tier r.target_start_ms (target_end_ms r))
          (refold_read fl r) (read-Keeps r.source_tier r.target_start_ms (target_end_ms r))
          refold_read-Keeps

    refold_if-Keeps :
        (enabled : Bool) (watermark : Option ℤ) → Keeps P (refold_if fl enabled watermark r)
    unfolding refold_if
    refold_if-Keeps enabled watermark =
        if-Keeps P (enabled && is_folded r.target_start_ms watermark) (refold_one fl r) (pure tt)
          refold_one-Keeps (λ w h. h)

  module _ (tier : Tier) (x : TierBucket F) (late : LateWrite F) (fl : Float F)
      (other : x.bucket_start_ms ≢ bucket_start_for (resolution_ms tier) late.captured_at_ms) where
    -- the bucket is not the one that is written
    writes_other :
        (target : Tier) (b : TierBucket F)
        → b.bucket_start_ms ≡ bucket_start_for (resolution_ms target) late.captured_at_ms
        → Keeps (λ db. Listed x (table tier db)) (upsert_tier_bucket target b)
    writes_other target b e = write-Keeps tier target x b (λ same p.
        other (p ∙ e ∙ ap (λ t. bucket_start_for (resolution_ms t) late.captured_at_ms) same))

    refold_flags : Option ℤ → Option ℤ → Option Bool → Option Bool → Exec (Db F) (Unit {0})
    refold_flags l3_watermark l4_watermark l3_flag l4_flag =
        refold_if fl (unwrap_or true l3_flag) l3_watermark (refold_l3 late)
        >> refold_if fl (unwrap_or true l4_flag) l4_watermark
            (refold_l4 late (unwrap_or true l3_flag))

    refold_flags-Keeps :
        (a b : Option ℤ) (c d : Option Bool)
        → Keeps (λ db. Listed x (table tier db)) (refold_flags a b c d)
    unfolding refold_flags refold_l3 refold_l4
    refold_flags-Keeps a b c d =
        let P = λ (db : Db F). Listed x (table tier db) in
        bind-Keeps P (refold_if fl (unwrap_or true c) a (refold_l3 late))
          (λ _. refold_if fl (unwrap_or true d) b (refold_l4 late (unwrap_or true c)))
          (refold_if-Keeps P fl (refold_l3 late) (writes_other l3) (unwrap_or true c) a)
          (λ _.
            refold_if-Keeps P fl (refold_l4 late (unwrap_or true c)) (writes_other l4)
              (unwrap_or true d) b)

    -- A late sample rewrites the buckets of its own ranges only: whichever statements fail, every bucket
    -- of a tier whose start is not that of the tier's bucket for the sample's capture time is still
    -- there after `refold_ancestors_for_late_write`.
    pub refold_ancestors_for_late_write-keeps :
        (w : World (Db F))
        → Listed x (table tier w.db)
        → Listed x (table tier (refold_ancestors_for_late_write late fl w).1.db)
    unfolding refold_ancestors_for_late_write refold_flags
    refold_ancestors_for_late_write-keeps =
        let P = λ (db : Db F). Listed x (table tier db) in
        bind-Keeps P (query (λ db. db.l3_folded_until_ms))
          (λ a. query (λ db. db.l4_folded_until_ms) >>= λ b. query (λ db. db.l3_enabled) >>= λ c.
            query (λ db. db.l4_enabled) >>= λ d. refold_flags a b c d)
          (query-Keeps P (λ db. db.l3_folded_until_ms))
          (λ a.
            bind-Keeps P (query (λ db. db.l4_folded_until_ms))
              (λ b. query (λ db. db.l3_enabled) >>= λ c.
                query (λ db. db.l4_enabled) >>= λ d. refold_flags a b c d)
              (query-Keeps P (λ db. db.l4_folded_until_ms))
              (λ b.
                bind-Keeps P (query (λ db. db.l3_enabled))
                  (λ c. query (λ db. db.l4_enabled) >>= λ d. refold_flags a b c d)
                  (query-Keeps P (λ db. db.l3_enabled))
                  (λ c.
                    bind-Keeps P (query (λ db. db.l4_enabled)) (λ d. refold_flags a b c d)
                      (query-Keeps P (λ db. db.l4_enabled)) (λ d. refold_flags-Keeps a b c d))))

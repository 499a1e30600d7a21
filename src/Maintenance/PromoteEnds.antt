-- ===== src/Maintenance/PromoteEnds.antt =====
-- The loop of a promotion ends by itself: its fuel is never used up.
use tinytop.Prelude.{
  ℕ, zero, suc, ◌+◌, ◌<◌, ◌≤◌, ◌≡◌, ◌≢◌, refl, sym, ap, ◌∙◌, Bool, true, false, inl, inr, Option,
  none, some, List, [], ◌∷◌, map, length, length-keep_if, All, ltb, Result-cases, ok, arith,
  if◌then◌else◌, unwrap_or,
}
use tinytop.Prelude.Int.{ℤ, leb_ℤ, i64_min}
use tinytop.Tiers.Defs.{Tier, l1, l2, l3, l4, Float, TierBucket, resolution_ms, bucket_start_for}
use tinytop.Tiers.Time.{IsTime}
use tinytop.Store.Exec.{World, Exec, pure, ◌>>=◌, >>=-of_ok}
use tinytop.Store.Rows.{Db}
use tinytop.Store.Tables.{
  table, oldest_start, upsert_tier_bucket, oldest_tier_bucket_start_at_or_after,
}
use tinytop.Maintenance.Keeps.{Keeps}
use tinytop.Maintenance.PromoteKeeps.{promote_range-Keeps}
use tinytop.Maintenance.Promote.{
  Promotion, Watermark, l3_folded_until_ms, l4_folded_until_ms, get_watermark, set_watermark,
  promote_range, target_end, is_ready, promote_next, promote_loop, promote, max_promotions_per_tick,
}
use tinytop.Maintenance.Remaining.{
  remaining, remaining_lt, oldest_start-Listed, All-Listed, IsTimed, target_end-after,
}

module _ {F : Type 0} where
  -- a write to another tier leaves the source
  upsert_tier_bucket-leaves :
      (source target : Tier) (rows : List (TierBucket F)) (b : TierBucket F)
      → source ≢ target
      → Keeps (λ db. table source db ≡ rows) (upsert_tier_bucket target b)
  unfolding upsert_tier_bucket table
  upsert_tier_bucket-leaves l1 l1 rows b n w h = absurd (n refl)
  upsert_tier_bucket-leaves l2 l2 rows b n w h = absurd (n refl)
  upsert_tier_bucket-leaves l3 l3 rows b n w h = absurd (n refl)
  upsert_tier_bucket-leaves l4 l4 rows b n w h = absurd (n refl)
  upsert_tier_bucket-leaves source l1 rows b n w h = h
  upsert_tier_bucket-leaves l1 target rows b n w h = ground (arith, h)
  upsert_tier_bucket-leaves l2 target rows b n w h = ground (arith, h)
  upsert_tier_bucket-leaves l3 target rows b n w h = ground (arith, h)
  upsert_tier_bucket-leaves l4 target rows b n w h = ground (arith, h)

  set_watermark-leaves :
      (source : Tier) (rows : List (TierBucket F)) (k : Watermark) (t : ℤ)
      → Keeps (λ db. table source db ≡ rows) (set_watermark k t)
  unfolding set_watermark table
  set_watermark-leaves l1 rows l3_folded_until_ms t w h = ground (arith, h)
  set_watermark-leaves l2 rows l3_folded_until_ms t w h = ground (arith, h)
  set_watermark-leaves l3 rows l3_folded_until_ms t w h = ground (arith, h)
  set_watermark-leaves l4 rows l3_folded_until_ms t w h = ground (arith, h)
  set_watermark-leaves l1 rows l4_folded_until_ms t w h = ground (arith, h)
  set_watermark-leaves l2 rows l4_folded_until_ms t w h = ground (arith, h)
  set_watermark-leaves l3 rows l4_folded_until_ms t w h = ground (arith, h)
  set_watermark-leaves l4 rows l4_folded_until_ms t w h = ground (arith, h)

  -- two ways to go on that agree on what the first action leaves
  bind-agree :
      {A B : Type 0} (m : Exec (Db F) A) (f g : A → Exec (Db F) B) (w : World (Db F))
      → ((a : A) → (m w).0 ≡ ok a → f a (m w).1 ≡ g a (m w).1)
      → (m >>= f) w ≡ (m >>= g) w
  bind-agree m f g w k = elim (Result-cases (m w).0) [
    | inl (a, e) ↦ >>=-of_ok m f w a e ∙ k a e ∙ sym (>>=-of_ok m g w a e)
    | inr (x, e) ↦ ground arith
  ]

  if-agree :
      {A : Type 0} (b : Bool) (m k z : Exec (Db F) A) (w : World (Db F))
      → (b ≡ true → m w ≡ k w)
      → (if b then m else z) w ≡ (if b then k else z) w
  if-agree true m k z w h = h refl
  if-agree false m k z w h = refl

  unfoldable pub starts_of : List (TierBucket F) → List ℤ
  starts_of rows = map (λ b. b.bucket_start_ms) rows

  oldest-found :
      (tier : Tier) (since : ℤ) (rows : List (TierBucket F)) (w : World (Db F)) (o : Option ℤ)
      → table tier w.db ≡ rows
      → (oldest_tier_bucket_start_at_or_after tier since w).0 ≡ ok o
      → oldest_start since (starts_of rows) ≡ o
  unfolding starts_of oldest_tier_bucket_start_at_or_after
  oldest-found tier since rows w o t h =
      ap (λ r. oldest_start since (map (λ b. b.bucket_start_ms) r)) (sym t) ∙ ground (arith, h)

  oldest-Keeps :
      (tier : Tier) (since : ℤ) (rows : List (TierBucket F))
      → Keeps (λ db. table tier db ≡ rows) (oldest_tier_bucket_start_at_or_after tier since)
  unfolding oldest_tier_bucket_start_at_or_after
  oldest-Keeps tier since rows w h = ground (arith, h)

  get_watermark-Keeps :
      (tier : Tier) (rows : List (TierBucket F)) (k : Watermark)
      → Keeps (λ db. table tier db ≡ rows) (get_watermark k)
  unfolding get_watermark
  get_watermark-Keeps tier rows l3_folded_until_ms w h = ground (arith, h)
  get_watermark-Keeps tier rows l4_folded_until_ms w h = ground (arith, h)

  length-starts_of : (rows : List (TierBucket F)) → length (starts_of rows) ≡ length rows
  unfolding starts_of
  length-starts_of [] = refl
  length-starts_of (b ∷ rows) = omega (arith, length-starts_of rows)

  remaining-le :
      (since : ℤ) (rows : List (TierBucket F)) → remaining since (starts_of rows) ≤ length rows
  unfolding remaining
  remaining-le since rows =
      omega (arith, length-starts_of rows, length-keep_if (λ t. leb_ℤ since t) (starts_of rows))

  -- `promote` with fuel to spare
  promote_from : Float F → Promotion → ℕ → Option ℤ → Exec (Db F) ℕ
  promote_from fl p spare watermark w =
      promote_loop fl p (suc (length (table p.source_tier w.db)) + spare)
        (unwrap_or i64_min watermark) 0 w

  unfoldable pub promote_with : Float F → Promotion → ℕ → Exec (Db F) ℕ
  unfolding promote_from
  promote_with fl p spare = get_watermark p.watermark >>= promote_from fl p spare

  module _ (fl : Float F) (p : Promotion) (timed : IsTimed p)
      (apart : p.source_tier ≢ p.target_tier) (rows : List (TierBucket F))
      (times : All IsTime (starts_of rows)) where
    range_leaves : (s e : ℤ) → Keeps (λ db. table p.source_tier db ≡ rows) (promote_range fl p s e)
    range_leaves =
        promote_range-Keeps (λ db. table p.source_tier db ≡ rows) fl p
          (λ b. upsert_tier_bucket-leaves p.source_tier p.target_tier rows b apart)
          (λ t. set_watermark-leaves p.source_tier rows p.watermark t)

    next-agree :
        (next other : ℤ → ℕ → Exec (Db F) ℕ) (since : ℤ) (n : ℕ) (o : Option ℤ) (w : World (Db F))
        → oldest_start since (starts_of rows) ≡ o
        → table p.source_tier w.db ≡ rows
        → ((e : ℤ) (m : ℕ) (u : World (Db F))
            → table p.source_tier u.db ≡ rows
            → remaining e (starts_of rows) < remaining since (starts_of rows)
            → next e m u ≡ other e m u)
        → promote_next fl p next n o w ≡ promote_next fl p other n o w
    unfolding promote_next
    next-agree next other since n none w h t same = refl
    next-agree next other since n (some s) w h t same =
        let start = bucket_start_for (resolution_ms p.target_tier) s in
        let end = target_end p start in
        let range = promote_range fl p start end in
        let (from, listed) = oldest_start-Listed since s (starts_of rows) h in
        let before = λ (r : is_ready p start ≡ true).
          target_end-after p s timed (All-Listed IsTime s (starts_of rows) times listed) r in
        if-agree (is_ready p start) (range >>= λ wrote. next end (if wrote then suc n else n))
          (range >>= λ wrote. other end (if wrote then suc n else n)) (pure n) w
          (λ r.
            bind-agree range (λ wrote. next end (if wrote then suc n else n))
              (λ wrote. other end (if wrote then suc n else n)) w
              (λ wrote _.
                same end (if wrote then suc n else n) (range w).1 (range_leaves start end w t)
                  (remaining_lt since end s from (before r) (starts_of rows) listed)))

    loop-agree :
        (f g : ℕ) (since : ℤ) (n : ℕ) (w : World (Db F))
        → table p.source_tier w.db ≡ rows
        → remaining since (starts_of rows) < f
        → remaining since (starts_of rows) < g
        → promote_loop fl p f since n w ≡ promote_loop fl p g since n w
    unfolding promote_loop
    loop-agree zero g since n w t a b = absurd (omega arith)
    loop-agree (suc f) zero since n w t a b = absurd (omega arith)
    loop-agree (suc f) (suc g) since n w t a b =
        let oldest = oldest_tier_bucket_start_at_or_after p.source_tier since in
        if-agree (ltb n max_promotions_per_tick)
          (oldest >>= promote_next fl p (promote_loop fl p f) n)
          (oldest >>= promote_next fl p (promote_loop fl p g) n) (pure n) w
          (λ _.
            bind-agree oldest (promote_next fl p (promote_loop fl p f) n)
              (promote_next fl p (promote_loop fl p g) n) w
              (λ o read.
                next-agree (promote_loop fl p f) (promote_loop fl p g) since n o (oldest w).1
                  (oldest-found p.source_tier since rows w o t read)
                  (oldest-Keeps p.source_tier since rows w t)
                  (λ e m u same fewer.
                    loop-agree f g e m u same (omega (arith, fewer)) (omega (arith, fewer)))))

    from-agree :
        (spare : ℕ) (watermark : Option ℤ) (w : World (Db F))
        → table p.source_tier w.db ≡ rows
        → promote_from fl p spare watermark w
          ≡ promote_loop fl p
              (suc (length (table p.source_tier w.db)))
              (unwrap_or i64_min watermark)
              0
              w
    unfolding promote_from
    from-agree spare watermark w t =
        let same = ap length t in
        let few = remaining-le (unwrap_or i64_min watermark) rows in
        loop-agree (suc (length (table p.source_tier w.db)) + spare)
          (suc (length (table p.source_tier w.db))) (unwrap_or i64_min watermark) 0 w t
          (omega (arith, same, few)) (omega (arith, same, few))

  -- The loop of a promotion into another tier ends by one of its own tests, whichever statements fail:
  -- any fuel beyond one more than the rows of the source tier changes nothing. The clock is before the
  -- end of the range of `i64`, the grace is not negative, the target has buckets, and the source rows
  -- start at times whose buckets do not begin below that range.
  pub promote_with-promote :
      (fl : Float F) (p : Promotion) (spare : ℕ) (w : World (Db F))
      → IsTimed p
      → p.source_tier ≢ p.target_tier
      → All IsTime (starts_of (table p.source_tier w.db))
      → promote_with fl p spare w ≡ promote fl p w
  unfolding promote_with promote
  promote_with-promote fl p spare w timed apart times =
      let rows = table p.source_tier w.db in
      bind-agree (get_watermark p.watermark) (promote_from fl p spare)
        (λ watermark v.
          promote_loop fl p (suc (length (table p.source_tier v.db))) (unwrap_or i64_min watermark)
            0 v)
        w
        (λ watermark _.
          from-agree fl p timed apart rows times spare watermark (get_watermark p.watermark w).1
            (get_watermark-Keeps p.source_tier rows p.watermark w refl))

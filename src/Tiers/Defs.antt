-- ===== src/Tiers/Defs.antt =====
-- The definitions of ladder.rs. `f64` and its operations are a parameter.
use tinytop.Prelude.{
  ℕ, Bool, Option, none, some, List, [], ◌∷◌, map, if◌then◌else◌, unwrap_or, fold_from, reduce,
}
use tinytop.Prelude.Int.{
  ℤ, pos, ltb_ℤ, leb_ℤ, min_ℤ, max_ℤ, div_euclid, wrapping_add, saturating_add, saturating_mul,
}

pub data Tier : Type 0 where
  l1 l2 l3 l4 : Tier

unfoldable pub resolution_ms : Tier → ℕ
resolution_ms l1 = 0
resolution_ms l2 = 60_000
resolution_ms l3 = 300_000
resolution_ms l4 = 3_600_000

unfoldable pub finer : Tier → Option Tier
finer l1 = none
finer l2 = some l1
finer l3 = some l2
finer l4 = some l3

unfoldable pub coarser : Tier → Option Tier
coarser l1 = some l2
coarser l2 = some l3
coarser l3 = some l4
coarser l4 = none

-- what the program uses of `f64`
pub record Float (F : Type 0) : Type 0 where
  pub zero : F
  pub add : F → F → F
  pub mul : F → F → F
  pub div : F → F → F
  pub min : F → F → F
  pub max : F → F → F
  pub of_i64 : ℤ → F
  pub infinity : F
  pub neg_infinity : F

pub record Stat (F : Type 0) : Type 0 where
  pub avg : F
  pub min : F
  pub max : F

pub record TierBucket (F : Type 0) : Type 0 where
  pub bucket_start_ms : ℤ
  pub first_captured_at_ms : ℤ
  pub newest_captured_at_ms : ℤ
  pub sample_count : ℤ
  pub cpu : Stat F
  pub memory : Stat F
  pub swap : Stat F
  pub load : Stat F
  pub root_used : Option (Stat F)

pub record RawSampleRow (F : Type 0) : Type 0 where
  pub captured_at_ms : ℤ
  pub cpu_usage_percent : F
  pub memory_used_percent : F
  pub swap_used_percent : F
  pub load_percent : F
  pub root_used_percent : Option F

module _ {F : Type 0} where
  -- `.sum::<i64>()`, which wraps in a release build
  unfoldable pub sum_counts : List (TierBucket F) → ℤ
  sum_counts bs = fold_from wrapping_add (pos 0) (map (λ b. b.sample_count) bs)

  -- the first and the newest capture time; the default is that of the first bucket
  unfoldable pub times : TierBucket F → List (TierBucket F) → ℤ × ℤ
  times first bs = (
    unwrap_or first.first_captured_at_ms (reduce min_ℤ (map (λ b. b.first_captured_at_ms) bs)),
    unwrap_or first.newest_captured_at_ms (reduce max_ℤ (map (λ b. b.newest_captured_at_ms) bs)),
  )

  -- the buckets that have a root filesystem, with its statistics
  unfoldable pub root_stats : List (TierBucket F) → List (ℤ × Stat F)
  root_stats [] = []
  root_stats (b ∷ bs) = elim b.root_used [
    | none ↦ root_stats bs
    | some s ↦ (b.sample_count, s) ∷ root_stats bs
  ]

  unfoldable pub root_counts : List (TierBucket F) → ℤ
  unfolding root_stats
  root_counts bs = fold_from wrapping_add (pos 0) (map (λ p. p.0) (root_stats bs))

module _ {F : Type 0} (fl : Float F) where
  -- `fold_stat`, over the counts and the statistics of the buckets
  unfoldable pub fold_stat : ℤ → List (ℤ × Stat F) → Stat F
  fold_stat sample_count ps = record {
    avg =
        fl.div (fold_from fl.add fl.zero (map (λ p. fl.mul p.1.avg (fl.of_i64 p.0)) ps))
          (fl.of_i64 sample_count);
    min = fold_from fl.min fl.infinity (map (λ p. p.1.min) ps);
    max = fold_from fl.max fl.neg_infinity (map (λ p. p.1.max) ps);
  }

  unfoldable pub fold_root : List (TierBucket F) → Option (Stat F)
  unfolding root_counts fold_stat
  fold_root bs =
      if ltb_ℤ (pos 0) (root_counts bs)
      then some (fold_stat (root_counts bs) (root_stats bs))
      else none

  -- the bucket that `fold` returns, once it has a first bucket and a positive count
  unfoldable pub build : ℤ → TierBucket F → List (TierBucket F) → TierBucket F
  unfolding times sum_counts fold_stat fold_root
  build bucket_start_ms first bs = record {
    bucket_start_ms = bucket_start_ms;
    first_captured_at_ms = (times first bs).0;
    newest_captured_at_ms = (times first bs).1;
    sample_count = sum_counts bs;
    cpu = fold_stat (sum_counts bs) (map (λ b. (b.sample_count, b.cpu)) bs);
    memory = fold_stat (sum_counts bs) (map (λ b. (b.sample_count, b.memory)) bs);
    swap = fold_stat (sum_counts bs) (map (λ b. (b.sample_count, b.swap)) bs);
    load = fold_stat (sum_counts bs) (map (λ b. (b.sample_count, b.load)) bs);
    root_used = fold_root bs;
  }

  unfoldable pub fold : ℤ → List (TierBucket F) → Option (TierBucket F)
  fold bucket_start_ms [] = none
  fold bucket_start_ms (first ∷ rest) =
      if leb_ℤ (sum_counts (first ∷ rest)) (pos 0)
      then none
      else some (build bucket_start_ms first (first ∷ rest))

abbrev single : {F : Type 0} → F → Stat F
single value = record { avg = value; min = value; max = value }

unfoldable pub raw_to_bucket : {F : Type 0} → RawSampleRow F → TierBucket F
raw_to_bucket sample = record {
  bucket_start_ms = sample.captured_at_ms;
  first_captured_at_ms = sample.captured_at_ms;
  newest_captured_at_ms = sample.captured_at_ms;
  sample_count = pos 1;
  cpu = single sample.cpu_usage_percent;
  memory = single sample.memory_used_percent;
  swap = single sample.swap_used_percent;
  load = single sample.load_percent;
  root_used = elim sample.root_used_percent [ none ↦ none | some v ↦ some (single v) ];
}

unfoldable pub raw_is_partial : ℤ → ℤ → Bool
raw_is_partial existing_count raw_count_now = ltb_ℤ raw_count_now existing_count

unfoldable pub bucket_start_for : ℕ → ℤ → ℤ
bucket_start_for resolution timestamp_ms =
    saturating_mul (div_euclid timestamp_ms resolution) resolution

unfoldable pub is_complete : ℤ → ℕ → ℤ → ℤ → Bool
is_complete bucket_start_ms resolution grace now_ms =
    leb_ℤ (saturating_add (saturating_add bucket_start_ms (pos resolution)) grace) now_ms

unfoldable pub grace_ms : ℤ → ℤ
grace_ms poll_interval_ms = max_ℤ (pos 3_000) (saturating_mul poll_interval_ms 2)

-- ===== src/Tiers/Time.antt =====
-- The times of buckets: a bucket holds its timestamps, and buckets nest.
use tinytop.Prelude.{ℕ, ◌≡◌, ◌≢◌, refl, true, some, ◌≤◌, ◌-◌, leb→le, arith}
use tinytop.Prelude.Int.{
  ℤ, pos, negsuc, ◌+ℤ◌, ◌≤ℤ◌, ◌<ℤ◌, IsI64, i64_max, i64_top, saturate, scale, div_euclid, int_laws,
}
use tinytop.Tiers.Defs.{Tier, l1, l2, l3, l4, resolution_ms, finer, bucket_start_for, is_complete}

-- the times whose bucket starts are not below the range of `i64`
abbrev pub IsTime : ℤ → Type 0
IsTime t = IsI64 t × (negsuc (i64_top - 3_600_000) ≤ℤ t)

-- `s` starts the bucket of `t`: the bucket holds `t`, and starts at a multiple of its length
pub record Starts (r : ℕ) (s t : ℤ) : Type 0 where
  pub from : s ≤ℤ t
  pub until : t <ℤ s +ℤ pos r
  pub aligned : bucket_start_for r s ≡ s

-- The bucket start of a time is aligned, not after the time, and less than one length before it,
-- in every tier that has buckets.
pub bucket_start_for-Starts :
    (tier : Tier) (t : ℤ)
    → tier ≢ l1
    → IsTime t
    → Starts (resolution_ms tier) (bucket_start_for (resolution_ms tier) t) t
unfolding resolution_ms bucket_start_for saturate scale div_euclid ◌+ℤ◌
bucket_start_for-Starts l1 t n h = absurd (n refl)
bucket_start_for-Starts l2 (pos t) n h = record {
  from = ground arith;
  until = ground arith;
  aligned = ground arith;
}
bucket_start_for-Starts l2 (negsuc t) n h = record {
  from = ground arith;
  until = ground arith;
  aligned = ground arith;
}
bucket_start_for-Starts l3 (pos t) n h = record {
  from = ground arith;
  until = ground arith;
  aligned = ground arith;
}
bucket_start_for-Starts l3 (negsuc t) n h = record {
  from = ground arith;
  until = ground arith;
  aligned = ground arith;
}
bucket_start_for-Starts l4 (pos t) n h = record {
  from = ground arith;
  until = ground arith;
  aligned = ground arith;
}
bucket_start_for-Starts l4 (negsuc t) n h = record {
  from = ground arith;
  until = ground arith;
  aligned = ground arith;
}

-- Buckets nest: the coarse bucket of a time is the coarse bucket of its finer bucket's start, for
-- each tier and the tier that it is promoted from.
pub bucket_start_for-nests :
    (coarse fine : Tier) (t : ℤ)
    → finer coarse ≡ some fine
    → fine ≢ l1
    → IsTime t
    → bucket_start_for (resolution_ms coarse) (bucket_start_for (resolution_ms fine) t)
      ≡ bucket_start_for (resolution_ms coarse) t
unfolding finer resolution_ms bucket_start_for saturate scale div_euclid
bucket_start_for-nests l1 fine t e n h = cc
bucket_start_for-nests l2 fine t e n h = absurd (n (cc))
bucket_start_for-nests l3 l2 (pos t) e n h = ground arith
bucket_start_for-nests l3 l2 (negsuc t) e n h = ground arith
bucket_start_for-nests l4 l3 (pos t) e n h = ground arith
bucket_start_for-nests l4 l3 (negsuc t) e n h = ground arith
bucket_start_for-nests l3 l1 t e n h = cc
bucket_start_for-nests l3 l3 t e n h = cc
bucket_start_for-nests l3 l4 t e n h = cc
bucket_start_for-nests l4 l1 t e n h = cc
bucket_start_for-nests l4 l2 t e n h = cc
bucket_start_for-nests l4 l4 t e n h = cc

-- When a bucket is complete before the end of the range of `i64`, every time in it is older than
-- now by more than the grace.
is_complete_lem :
    (r : ℕ) (s t grace now : ℤ)
    → is_complete s r grace now ≡ true
    → now <ℤ i64_max
    → pos 0 ≤ℤ grace
    → IsI64 s
    → r ≤ 3_600_000
    → t <ℤ s +ℤ pos r
    → t +ℤ grace <ℤ now
unfolding is_complete
is_complete_lem r s t grace now c n g i w u = omega (int_laws, leb→le _ _ c)

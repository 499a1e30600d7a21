-- ===== src/Tiers/Tests.antt =====
-- The tier theorems at concrete times, and at buckets over the integers.
use tinytop.Prelude.{◌≡◌, refl, true, some, none, List, [], ◌∷◌, arith}
use tinytop.Prelude.Int.{
  ℤ, pos, ◌+ℤ◌, ◌<ℤ◌, min_ℤ, max_ℤ, min_ℤ_assoc, max_ℤ_assoc, i64_max, i64_min, saturate, wrap,
  wrapping_add, min_ℤ_comm, max_ℤ_comm,
}
use tinytop.Tiers.Defs.{
  l3, l4, finer, build, sum_counts, Float, TierBucket, fold, resolution_ms, bucket_start_for,
  is_complete,
}
use tinytop.Tiers.Time.{Starts, bucket_start_for-Starts, bucket_start_for-nests}
use tinytop.Tiers.Fold.{members, Folded}
use tinytop.Tiers.TwoLevel.{FloatLaws, SameSpan, fold-fold}

bucket_start_for-Starts_example :
    Starts (resolution_ms l3) (bucket_start_for (resolution_ms l3) (pos 1_234_567)) (pos 1_234_567)
bucket_start_for-Starts_example =
    bucket_start_for-Starts l3 (pos 1_234_567) (λ e. cc) ((omega arith, omega arith), omega arith)

l4_finer : finer l4 ≡ some l3
unfolding finer
l4_finer = refl

bucket_start_for-nests_example :
    bucket_start_for (resolution_ms l4) (bucket_start_for (resolution_ms l3) (pos 1_234_567))
    ≡ bucket_start_for (resolution_ms l4) (pos 1_234_567)
bucket_start_for-nests_example =
    bucket_start_for-nests l4 l3 (pos 1_234_567) l4_finer (λ e. cc)
      ((omega arith, omega arith), omega arith)

is_complete_example : is_complete (pos 0) 60_000 (pos 3_000) (pos 63_000) ≡ true
unfolding is_complete saturate ◌+ℤ◌
is_complete_example = refl

inside : pos 59_999 <ℤ pos 0 +ℤ pos 60_000
unfolding ◌+ℤ◌
inside = ground arith

-- the integers in place of the floating-point numbers
abbrev int_float : Float ℤ
int_float = record {
  zero = pos 0;
  add = λ a b. a +ℤ b;
  mul = λ a b. a;
  div = λ a b. a;
  min = min_ℤ;
  max = max_ℤ;
  of_i64 = λ a. a;
  infinity = i64_max;
  neg_infinity = i64_min;
}

int_laws_hold : FloatLaws int_float
unfolding min_ℤ max_ℤ
int_laws_hold = record {
  min_assoc = min_ℤ_assoc;
  min_comm = min_ℤ_comm;
  min_infinity = refl;
  max_assoc = max_ℤ_assoc;
  max_comm = max_ℤ_comm;
  max_infinity = refl;
}

abbrev bucket : ℤ → ℤ → TierBucket ℤ
bucket t v = record {
  bucket_start_ms = t;
  first_captured_at_ms = t;
  newest_captured_at_ms = t;
  sample_count = pos 2;
  cpu = record { avg = v; min = v; max = v };
  memory = record { avg = v; min = v; max = v };
  swap = record { avg = v; min = v; max = v };
  load = record { avg = v; min = v; max = v };
  root_used = none;
}

-- two minutes, each folded from one bucket
abbrev groups : List (ℤ × List (TierBucket ℤ))
groups = (pos 0, bucket (pos 0) (pos 5) ∷ []) ∷ (pos 60_000, bucket (pos 60_000) (pos 9) ∷ []) ∷ []

abbrev folds : List (TierBucket ℤ)
folds =
    build int_float (pos 0) (bucket (pos 0) (pos 5)) (bucket (pos 0) (pos 5) ∷ [])
    ∷ build int_float (pos 60_000) (bucket (pos 60_000) (pos 9)) (bucket (pos 60_000) (pos 9) ∷ [])
    ∷ []

groups-Folded : Folded int_float groups folds
unfolding fold sum_counts wrapping_add wrap ◌+ℤ◌ build
groups-Folded = (refl, (refl, tt))

abbrev five_minutes : TierBucket ℤ
five_minutes =
    build int_float (pos 0)
      (build int_float (pos 0) (bucket (pos 0) (pos 5)) (bucket (pos 0) (pos 5) ∷ [])) folds

fold-folds : fold int_float (pos 0) folds ≡ some five_minutes
unfolding fold sum_counts wrapping_add wrap ◌+ℤ◌ build
fold-folds = refl

fold-fold_example :
    (d : TierBucket ℤ) × (fold int_float (pos 0) (members int_float groups) ≡ some d)
    × SameSpan five_minutes d
fold-fold_example =
    fold-fold int_float int_laws_hold (pos 0) groups folds five_minutes groups-Folded fold-folds

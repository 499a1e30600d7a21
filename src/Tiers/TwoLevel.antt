-- ===== src/Tiers/TwoLevel.antt =====
-- Folding in two levels: the fold of folded groups has the times, the counts and the extremes of
-- the fold of all the buckets at once. Averages are not compared: sums of `f64` are not
-- associative.
use tinytop.Prelude.{◌≡◌, refl, sym, ap, ◌∙◌, some, List, [], ◌∷◌, ◌++◌, map, reduce, unwrap_or}
use tinytop.Prelude.Int.{
  ℤ, pos, ◌+ℤ◌, min_ℤ, max_ℤ, leb_ℤ, min_ℤ_assoc, max_ℤ_assoc, wrap, wrapping_add,
  wrapping_add_comm, wrapping_add_assoc,
}
use tinytop.Tiers.Defs.{Float, Stat, TierBucket, fold, build, times, fold_stat, sum_counts}
use tinytop.Tiers.Reduce.{map-map}
use tinytop.Tiers.Fold.{
  Folded, members, fold-cons, fold-nil, fold_positive, fold-eq-build, groups_read, groups_reduce,
}

-- What is used of `f64::min` and `f64::max`: both are associative and commutative, and keep the
-- infinity that the program starts from.
pub record FloatLaws {F : Type 0} (fl : Float F) : Type 0 where
  pub min_assoc : (a b c : F) → fl.min (fl.min a b) c ≡ fl.min a (fl.min b c)
  pub min_comm : (a b : F) → fl.min a b ≡ fl.min b a
  pub min_infinity : fl.min fl.infinity fl.infinity ≡ fl.infinity
  pub max_assoc : (a b c : F) → fl.max (fl.max a b) c ≡ fl.max a (fl.max b c)
  pub max_comm : (a b : F) → fl.max a b ≡ fl.max b a
  pub max_infinity : fl.max fl.neg_infinity fl.neg_infinity ≡ fl.neg_infinity

-- the same extremes
pub record SameExtremes {F : Type 0} (s t : Stat F) : Type 0 where
  pub min : s.min ≡ t.min
  pub max : s.max ≡ t.max

-- two buckets that may differ in averages and in the root filesystem only
pub record SameSpan {F : Type 0} (b c : TierBucket F) : Type 0 where
  pub start : b.bucket_start_ms ≡ c.bucket_start_ms
  pub first : b.first_captured_at_ms ≡ c.first_captured_at_ms
  pub newest : b.newest_captured_at_ms ≡ c.newest_captured_at_ms
  pub count : b.sample_count ≡ c.sample_count
  pub cpu : SameExtremes b.cpu c.cpu
  pub memory : SameExtremes b.memory c.memory
  pub swap : SameExtremes b.swap c.swap
  pub load : SameExtremes b.load c.load

module _ {F : Type 0} (fl : Float F) (laws : FloatLaws fl) (gs : List (ℤ × List (TierBucket F)))
    (bs : List (TierBucket F)) (h : Folded fl gs bs) where
  counts_agree : sum_counts bs ≡ sum_counts (members fl gs)
  unfolding sum_counts build wrapping_add wrap ◌+ℤ◌
  counts_agree =
      groups_read fl wrapping_add (pos 0) wrapping_add_assoc wrapping_add_comm refl
        (λ b. b.sample_count) (λ s x g. refl) gs bs h

  first_agree :
      reduce min_ℤ (map (λ b. b.first_captured_at_ms) bs)
      ≡ reduce min_ℤ (map (λ b. b.first_captured_at_ms) (members fl gs))
  unfolding build
  first_agree =
      groups_reduce fl min_ℤ min_ℤ_assoc (λ b. b.first_captured_at_ms) (λ s x xs. refl) gs bs h

  newest_agree :
      reduce max_ℤ (map (λ b. b.newest_captured_at_ms) bs)
      ≡ reduce max_ℤ (map (λ b. b.newest_captured_at_ms) (members fl gs))
  unfolding build
  newest_agree =
      groups_reduce fl max_ℤ max_ℤ_assoc (λ b. b.newest_captured_at_ms) (λ s x xs. refl) gs bs h

  -- the extremes of one of the four statistics
  module _ (get : TierBucket F → Stat F)
      (built : (s : ℤ) (x : TierBucket F) (g : List (TierBucket F))
        → get (build fl s x g)
          ≡ fold_stat fl (sum_counts g) (map (λ b. (b.sample_count, get b)) g)) where
    extremes_agree :
        (m n : ℤ)
        → SameExtremes
            (fold_stat fl m (map (λ b. (b.sample_count, get b)) bs))
            (fold_stat fl n (map (λ b. (b.sample_count, get b)) (members fl gs)))
    unfolding fold_stat
    extremes_agree m n = record {
      min = simp map-map (
          groups_read fl fl.min fl.infinity laws.min_assoc laws.min_comm laws.min_infinity
            (λ b. (get b).min) (λ s x g. ap (λ t. t.min) (built s x g) ∙ simp map-map) gs bs h);
      max = simp map-map (
          groups_read fl fl.max fl.neg_infinity laws.max_assoc laws.max_comm laws.max_infinity
            (λ b. (get b).max) (λ s x g. ap (λ t. t.max) (built s x g) ∙ simp map-map) gs bs h);
    }

-- equal readings that are there are equal under any defaults
first_or_default :
    {A : Type 0} (op : A → A → A) (d e x : A) (xs ys : List A)
    → reduce op (x ∷ xs) ≡ reduce op ys
    → unwrap_or d (reduce op (x ∷ xs)) ≡ unwrap_or e (reduce op ys)
first_or_default op d e x xs [] h = cc
first_or_default op d e x xs (y ∷ ys) h = cc

module _ {F : Type 0} (fl : Float F) (laws : FloatLaws fl) where
  build_agree :
      (t : ℤ) (gs : List (ℤ × List (TierBucket F))) (b x : TierBucket F) (bs : List (TierBucket F))
      → Folded fl gs (b ∷ bs)
      → SameSpan (build fl t b (b ∷ bs)) (build fl t x (members fl gs))
  unfolding build times
  build_agree t gs b x bs h = record {
    start = refl;
    first =
        first_or_default min_ℤ b.first_captured_at_ms x.first_captured_at_ms b.first_captured_at_ms
          (map (λ c. c.first_captured_at_ms) bs) (map (λ c. c.first_captured_at_ms) (members fl gs))
          (first_agree fl laws gs (b ∷ bs) h);
    newest =
        first_or_default max_ℤ b.newest_captured_at_ms x.newest_captured_at_ms
          b.newest_captured_at_ms (map (λ c. c.newest_captured_at_ms) bs)
          (map (λ c. c.newest_captured_at_ms) (members fl gs)) (newest_agree fl laws gs (b ∷ bs) h);
    count = counts_agree fl laws gs (b ∷ bs) h;
    cpu = extremes_agree fl laws gs (b ∷ bs) h (λ b. b.cpu) (λ s x g. refl) _ _;
    memory = extremes_agree fl laws gs (b ∷ bs) h (λ b. b.memory) (λ s x g. refl) _ _;
    swap = extremes_agree fl laws gs (b ∷ bs) h (λ b. b.swap) (λ s x g. refl) _ _;
    load = extremes_agree fl laws gs (b ∷ bs) h (λ b. b.load) (λ s x g. refl) _ _;
  }

  -- Where `min` and `max` are associative, commutative and idempotent at their start values, every bucket of `bs` is the fold of a group, and `bs` folds to `c`, the buckets of all
  -- groups fold to a bucket with the same start, times, sample count, and minima and maxima of
  -- cpu, memory, swap and load: promotion through a middle tier loses none of these.
  pub fold-fold :
      (t : ℤ) (gs : List (ℤ × List (TierBucket F))) (bs : List (TierBucket F)) (c : TierBucket F)
      → Folded fl gs bs
      → fold fl t bs ≡ some c
      → (d : TierBucket F) × (fold fl t (members fl gs) ≡ some d) × SameSpan c d
  fold-fold t [] [] c h e = absurd (fold-nil fl t e)
  fold-fold t [] (b ∷ bs) c h e = absurd h
  fold-fold t (g ∷ gs) [] c h e = absurd h
  fold-fold t ((s, []) ∷ gs) (b ∷ bs) c h e = absurd (fold-nil fl s h.0)
  fold-fold t ((s, x ∷ xs) ∷ gs) (b ∷ bs) c h e =
      let all = members fl ((s, x ∷ xs) ∷ gs) in
      let counts = counts_agree fl laws ((s, x ∷ xs) ∷ gs) (b ∷ bs) h in
      (
        build fl t x all,
        fold-eq-build fl t x (xs ++ members fl gs)
            (ap (λ n. leb_ℤ n (pos 0)) (sym counts) ∙ fold_positive fl t b bs e),
        rw (fold-cons fl t b bs e) (build_agree t ((s, x ∷ xs) ∷ gs) b x bs h),
      )

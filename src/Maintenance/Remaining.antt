-- ===== src/Maintenance/Remaining.antt =====
-- What is left of a source tier once a promotion has passed a range.
use tinytop.Prelude.{
  ℕ, ◌<◌, ◌≤◌, ◌≡◌, ◌≢◌, refl, sym, true, inl, inr, some, List, [], ◌∷◌, length, keep_if, fold_from,
  reduce, All, Listed, Listed-keep_if, ◌⊎◌, leb→le, arith,
}
use mathlib.Core.Path.{subst}
use tinytop.Prelude.Int.{ℤ, pos, ◌≤ℤ◌, ◌<ℤ◌, leb_ℤ, min_ℤ, i64_max, int_laws}
use tinytop.Tiers.Defs.{l1, resolution_ms, bucket_start_for, is_complete}
use tinytop.Tiers.Time.{IsTime, bucket_start_for-Starts}
use tinytop.Store.Tables.{oldest_start}
use tinytop.Maintenance.Promote.{Promotion, target_end, is_ready}

-- the starts that are left to read
unfoldable pub remaining : ℤ → List ℤ → ℕ
remaining since starts = length (keep_if (λ t. leb_ℤ since t) starts)

module _ (since end s : ℤ) (from : since ≤ℤ s) (before : s <ℤ end) where
  remaining_le : (ts : List ℤ) → remaining end ts ≤ remaining since ts
  unfolding remaining
  remaining_le [] = omega arith
  remaining_le (t ∷ ts) = ground (arith, remaining_le ts)

  -- a start that is passed is left behind
  pub remaining_lt : (ts : List ℤ) → Listed s ts → remaining end ts < remaining since ts
  unfolding remaining
  remaining_lt [] l = absurd l
  remaining_lt (t ∷ ts) (inl e) = ground (arith, e, remaining_le ts)
  remaining_lt (t ∷ ts) (inr l) = ground (arith, remaining_lt ts l)

-- the minimum of a list is one of its elements
first_or_later : (x u t : ℤ) (ts : List ℤ) → Listed x (u ∷ ts) → Listed x (u ∷ t ∷ ts)
first_or_later x u t ts (inl e) = inl e
first_or_later x u t ts (inr l) = inr (inr l)

min_ℤ-cases : (u t : ℤ) → (min_ℤ u t ≡ u) ⊎ (min_ℤ u t ≡ t)
unfolding min_ℤ
min_ℤ-cases u t = ground arith

fold_from-Listed : (u : ℤ) (ts : List ℤ) → Listed (fold_from min_ℤ u ts) (u ∷ ts)
fold_from-Listed u [] = inl refl
fold_from-Listed u (t ∷ ts) = elim (min_ℤ-cases u t) [
  | inl e ↦
      first_or_later (fold_from min_ℤ (min_ℤ u t) ts) u t ts
        (subst (λ v. Listed (fold_from min_ℤ v ts) (u ∷ ts)) (sym e) (fold_from-Listed u ts))
  | inr e ↦
      inr (subst (λ v. Listed (fold_from min_ℤ v ts) (t ∷ ts)) (sym e) (fold_from-Listed t ts))
]

pub oldest_start-Listed :
    (since s : ℤ) (ts : List ℤ) → oldest_start since ts ≡ some s → (since ≤ℤ s) × Listed s ts
unfolding oldest_start
oldest_start-Listed since s ts h =
    let (e, l) =
      Listed-keep_if (λ t. leb_ℤ since t) s ts (of_reduce (keep_if (λ t. leb_ℤ since t) ts) h) in
    (leb→le _ _ e, l)
  where
    of_reduce : (kept : List ℤ) → reduce min_ℤ kept ≡ some s → Listed s kept
    of_reduce [] p = cc
    of_reduce (t ∷ ts) p = subst (λ x. Listed x (t ∷ ts)) (cc) (fold_from-Listed t ts)

pub All-Listed : (P : ℤ → Type 0) (x : ℤ) (ts : List ℤ) → All P ts → Listed x ts → P x
All-Listed P x [] h l = absurd l
All-Listed P x (t ∷ ts) h (inl e) = subst P (sym e) h.0
All-Listed P x (t ∷ ts) h (inr l) = All-Listed P x ts h.1 l

-- the clock and the grace of a promotion
pub record IsTimed (p : Promotion) : Type 0 where
  pub clock : p.now_ms <ℤ i64_max
  pub grace : pos 0 ≤ℤ p.grace_ms
  pub target : p.target_tier ≢ l1

-- a range that is promoted ends after the bucket that it was found by
pub target_end-after :
    (p : Promotion) (s : ℤ)
    → IsTimed p
    → IsTime s
    → is_ready p (bucket_start_for (resolution_ms p.target_tier) s) ≡ true
    → s <ℤ target_end p (bucket_start_for (resolution_ms p.target_tier) s)
unfolding target_end is_ready is_complete
target_end-after p s t h r =
    let starts = bucket_start_for-Starts p.target_tier s t.target h in
    omega (int_laws, starts.until, t.clock, t.grace, leb→le _ _ ready_by)
  where
    start : ℤ
    start = bucket_start_for (resolution_ms p.target_tier) s

    ready_by : is_complete start (resolution_ms p.target_tier) p.grace_ms p.now_ms ≡ true
    ready_by = ground (arith, r)

-- ===== src/Tiers/Fold.antt =====
-- Buckets that are folds of groups of buckets, and what a commutative reading of them sees.
use tinytop.Prelude.{
  ◌≡◌, refl, sym, ap, ◌∙◌, false, Bool-cases, some, inl, inr, List, [], ◌∷◌, map, fold_from, concat,
  reduce,
}
use tinytop.Prelude.Int.{ℤ, pos, leb_ℤ}
use mathlib.Core.List.{map-append}
use mathlib.Core.Path.{ap₂}
use tinytop.Tiers.Defs.{Float, TierBucket, fold, build, sum_counts}
use tinytop.Tiers.Reduce.{fold_from-concat, reduce-cons, reduce-append, combine, map-concat}

module _ {F : Type 0} (fl : Float F) where
  -- `bs` are the folds of the groups, each at its own start
  abbrev pub Folded : List (ℤ × List (TierBucket F)) → List (TierBucket F) → Type 0
  Folded [] [] = Unit
  Folded [] (b ∷ bs) = ⊥
  Folded (g ∷ gs) [] = ⊥
  Folded ((s, g) ∷ gs) (b ∷ bs) = (fold fl s g ≡ some b) × Folded gs bs

  -- the buckets of all groups
  abbrev pub members : List (ℤ × List (TierBucket F)) → List (TierBucket F)
  members gs = concat (map (λ g. g.1) gs)

  pub fold-nil : (s : ℤ) {b : TierBucket F} → fold fl s [] ≡ some b → ⊥
  unfolding fold
  fold-nil s h = cc

  pub fold-cons :
      (s : ℤ) (x : TierBucket F) (xs : List (TierBucket F)) {b : TierBucket F}
      → fold fl s (x ∷ xs) ≡ some b
      → b ≡ build fl s x (x ∷ xs)
  unfolding fold
  fold-cons s x xs h = elim (Bool-cases (leb_ℤ (sum_counts (x ∷ xs)) (pos 0))) [
    | inl e ↦ absurd (cc (rw e at h))
    | inr e ↦ cc (rw e at h)
  ]

  pub fold_positive :
      (s : ℤ) (x : TierBucket F) (xs : List (TierBucket F)) {b : TierBucket F}
      → fold fl s (x ∷ xs) ≡ some b
      → leb_ℤ (sum_counts (x ∷ xs)) (pos 0) ≡ false
  unfolding fold
  fold_positive s x xs h = elim (Bool-cases (leb_ℤ (sum_counts (x ∷ xs)) (pos 0))) [
    | inl e ↦ absurd (cc (rw e at h))
    | inr e ↦ e
  ]

  pub fold-eq-build :
      (s : ℤ) (x : TierBucket F) (xs : List (TierBucket F))
      → leb_ℤ (sum_counts (x ∷ xs)) (pos 0) ≡ false
      → fold fl s (x ∷ xs) ≡ some (build fl s x (x ∷ xs))
  unfolding fold
  fold-eq-build s x xs e = rw e refl

  module _ {A : Type 0} (op : A → A → A) (u : A)
      (assoc : (a b c : A) → op (op a b) c ≡ op a (op b c)) (comm : (a b : A) → op a b ≡ op b a)
      (start : op u u ≡ u) (get : TierBucket F → A)
      (built : (s : ℤ) (x : TierBucket F) (g : List (TierBucket F))
        → get (build fl s x g) ≡ fold_from op u (map get g)) where
    pub each_read :
        (gs : List (ℤ × List (TierBucket F))) (bs : List (TierBucket F))
        → Folded gs bs
        → map get bs ≡ map (fold_from op u) (map (map get) (map (λ g. g.1) gs))
    each_read [] [] h = refl
    each_read [] (b ∷ bs) h = absurd h
    each_read (g ∷ gs) [] h = absurd h
    each_read ((s, []) ∷ gs) (b ∷ bs) h = absurd (fold-nil s h.0)
    each_read ((s, x ∷ xs) ∷ gs) (b ∷ bs) h =
        ap₂ ◌∷◌ (ap get (fold-cons s x xs h.0) ∙ built s x (x ∷ xs)) (each_read gs bs h.1)

    -- what is read of the folds is read of all buckets
    pub groups_read :
        (gs : List (ℤ × List (TierBucket F))) (bs : List (TierBucket F))
        → Folded gs bs
        → fold_from op u (map get bs) ≡ fold_from op u (map get (members gs))
    groups_read gs bs h = rw (each_read gs bs h) (
        fold_from-concat op u assoc comm start (map (map get) (map (λ g. g.1) gs))
        ∙ ap (fold_from op u) (sym (map-concat get (map (λ g. g.1) gs))))

  module _ {A : Type 0} (op : A → A → A) (assoc : (a b c : A) → op (op a b) c ≡ op a (op b c))
      (get : TierBucket F → A)
      (built : (s : ℤ) (x : TierBucket F) (xs : List (TierBucket F))
        → get (build fl s x (x ∷ xs)) ≡ fold_from op (get x) (map get xs)) where
    -- The same for a reading that has no start value, over one group or more.
    pub groups_reduce :
        (gs : List (ℤ × List (TierBucket F))) (bs : List (TierBucket F))
        → Folded gs bs
        → reduce op (map get bs) ≡ reduce op (map get (members gs))
    groups_reduce [] [] h = refl
    groups_reduce [] (b ∷ bs) h = absurd h
    groups_reduce (g ∷ gs) [] h = absurd h
    groups_reduce ((s, []) ∷ gs) (b ∷ bs) h = absurd (fold-nil s h.0)
    groups_reduce ((s, x ∷ xs) ∷ gs) (b ∷ bs) h =
        reduce-cons op assoc (get b) (map get bs)
        ∙ ap₂ (combine op) (ap get (fold-cons s x xs h.0) ∙ built s x xs) (groups_reduce gs bs h.1)
        ∙ sym (reduce-append op assoc (get x) (map get xs) (map get (members gs)))
        ∙ sym (ap (λ l. reduce op (get x ∷ l)) (map-append get xs (members gs)))

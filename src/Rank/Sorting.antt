-- ===== src/Rank/Sorting.antt =====
-- Sorting and cutting a list of indexed elements keeps its indices apart.
use tinytop.Prelude.{
  ℕ, zero, suc, ◌<◌, ◌≡◌, ◌≢◌, ◌∙◌, refl, sym, ap, Bool, Bool-cases, inl, inr, List, [], ◌∷◌, map,
  take, All, arith,
}
use tinytop.Prelude.Sort.{sort_by, insert_by}
use tinytop.Rank.Defs.{enumerate_from}

module _ {A B : Type 0} (f : A → B) (before : B → B → Bool) where
  map-insert_by :
      (x : A) (xs : List A)
      → map f (insert_by (λ a b. before (f a) (f b)) x xs) ≡ insert_by before (f x) (map f xs)
  unfolding insert_by
  map-insert_by x [] = refl
  map-insert_by x (y ∷ ys) = elim (Bool-cases (before (f x) (f y))) [
    | inl e ↦ rw e refl
    | inr e ↦ rw e (ap (λ t. f y ∷ t) (map-insert_by x ys))
  ]

  -- sorting by a key is sorting the keys
  pub map-sort_by :
      (xs : List A) → map f (sort_by (λ a b. before (f a) (f b)) xs) ≡ sort_by before (map f xs)
  unfolding sort_by
  map-sort_by [] = refl
  map-sort_by (x ∷ xs) =
      map-insert_by x (sort_by (λ a b. before (f a) (f b)) xs)
      ∙ ap (insert_by before (f x)) (map-sort_by xs)

pub map-take {ℓ κ} :
    {A : Type ℓ} {B : Type κ} (f : A → B) (n : ℕ) (xs : List A)
    → map f (take n xs) ≡ take n (map f xs)
map-take f zero xs = refl
map-take f (suc n) [] = refl
map-take f (suc n) (x ∷ xs) = ap (λ t. f x ∷ t) (map-take f n xs)

pub map-enumerate_from :
    {A : Type 0} (i : ℕ) (xs : List A) → map (λ e. e.1) (enumerate_from i xs) ≡ xs
unfolding enumerate_from
map-enumerate_from i [] = refl
map-enumerate_from i (x ∷ xs) = ap (λ t. x ∷ t) (map-enumerate_from (suc i) xs)

module _ {A : Type 0} where
  abbrev pub Fresh : ℕ → List (ℕ × A) → Type 0
  Fresh i es = All (λ e. e.0 ≢ i) es

  -- no index twice
  abbrev pub AreDistinct : List (ℕ × A) → Type 0
  AreDistinct [] = Unit
  AreDistinct (e ∷ es) = Fresh e.0 es × AreDistinct es

  module _ (before : ℕ × A → ℕ × A → Bool) where
    All-insert_by :
        (P : ℕ × A → Type 0) (x : ℕ × A) (es : List (ℕ × A))
        → P x
        → All P es
        → All P (insert_by before x es)
    unfolding insert_by
    All-insert_by P x [] p h = (p, tt)
    All-insert_by P x (e ∷ es) p h = elim (Bool-cases (before x e)) [
      | inl b ↦ rw b (p, h)
      | inr b ↦ rw b (h.0, All-insert_by P x es p h.1)
    ]

    pub All-sort_by :
        (P : ℕ × A → Type 0) (es : List (ℕ × A)) → All P es → All P (sort_by before es)
    unfolding sort_by
    All-sort_by P [] h = tt
    All-sort_by P (e ∷ es) h = All-insert_by P e (sort_by before es) h.0 (All-sort_by P es h.1)

    insert_by-AreDistinct :
        (x : ℕ × A) (es : List (ℕ × A))
        → Fresh x.0 es
        → AreDistinct es
        → AreDistinct (insert_by before x es)
    unfolding insert_by
    insert_by-AreDistinct x [] n h = (tt, tt)
    insert_by-AreDistinct x (e ∷ es) n h = elim (Bool-cases (before x e)) [
      | inl b ↦ rw b (n, h)
      | inr b ↦ rw b (
        All-insert_by (λ d. d.0 ≢ e.0) x es (λ p. n.0 (sym p)) h.0,
        insert_by-AreDistinct x es n.1 h.1,
      )
    ]

    pub sort_by-AreDistinct : (es : List (ℕ × A)) → AreDistinct es → AreDistinct (sort_by before es)
    unfolding sort_by
    sort_by-AreDistinct [] h = tt
    sort_by-AreDistinct (e ∷ es) h =
        insert_by-AreDistinct e (sort_by before es) (All-sort_by (λ d. d.0 ≢ e.0) es h.0)
          (sort_by-AreDistinct es h.1)

  pub All-take : (P : ℕ × A → Type 0) (n : ℕ) (es : List (ℕ × A)) → All P es → All P (take n es)
  All-take P zero es h = tt
  All-take P (suc n) [] h = tt
  All-take P (suc n) (e ∷ es) h = (h.0, All-take P n es h.1)

  pub take-AreDistinct : (n : ℕ) (es : List (ℕ × A)) → AreDistinct es → AreDistinct (take n es)
  take-AreDistinct zero es h = tt
  take-AreDistinct (suc n) [] h = tt
  take-AreDistinct (suc n) (e ∷ es) h =
      (All-take (λ d. d.0 ≢ e.0) n es h.0, take-AreDistinct n es h.1)

  above : (i j : ℕ) (xs : List A) → i < j → All (λ e. e.0 ≢ i) (enumerate_from j xs)
  unfolding enumerate_from
  above i j [] l = tt
  above i j (x ∷ xs) l = ((λ p. omega (arith, p)), above i (suc j) xs (omega arith))

  pub enumerate_from-AreDistinct : (i : ℕ) (xs : List A) → AreDistinct (enumerate_from i xs)
  unfolding enumerate_from
  enumerate_from-AreDistinct i [] = tt
  enumerate_from-AreDistinct i (x ∷ xs) =
      (above i (suc i) xs (omega arith), enumerate_from-AreDistinct (suc i) xs)

-- ===== src/Archive/Rows.antt =====
-- The keys of the archived rows.
use tinytop.Prelude.{
  ◌≡◌, ◌≢◌, refl, sym, ◌∙◌, Option, none, some, false, All, keep_if, Bool, true, ◌⊎◌, inl, inr,
  List, [], ◌∷◌, any_of, Bool-cases, arith, Listed,
}
use mathlib.Core.Path.{subst}
use tinytop.Prelude.Int.{ℤ, eqb_ℤ, eqb_ℤ_iff}
use tinytop.Tiers.Defs.{TierBucket, Stat}
use tinytop.Store.Tables.{upsert_row, delete_where}
use tinytop.Archive.Move.{has_start, insert_all, row_match, same_stat, same_root}

module _ {F : Type 0} where
  -- a row that is there has its key
  pub has_start_of_Listed :
      (b : TierBucket F) (rows : List (TierBucket F))
      → Listed b rows
      → has_start b.bucket_start_ms rows ≡ true
  unfolding has_start
  has_start_of_Listed b [] l = absurd l
  has_start_of_Listed b (x ∷ xs) (inl e) =
      rw e (ground (arith, (eqb_ℤ_iff x.bucket_start_ms x.bucket_start_ms).1 refl))
  has_start_of_Listed b (x ∷ xs) (inr l) = ground (arith, has_start_of_Listed b xs l)

  pub has_start-upsert_row_self :
      (b : TierBucket F) (rows : List (TierBucket F))
      → has_start b.bucket_start_ms (upsert_row b rows) ≡ true
  unfolding has_start upsert_row
  has_start-upsert_row_self b [] =
      ground (arith, (eqb_ℤ_iff b.bucket_start_ms b.bucket_start_ms).1 refl)
  has_start-upsert_row_self b (x ∷ xs) = ground (
    arith,
    (eqb_ℤ_iff b.bucket_start_ms b.bucket_start_ms).1 refl,
    has_start-upsert_row_self b xs,
  )

  pub has_start-upsert_row :
      (t : ℤ) (b : TierBucket F) (rows : List (TierBucket F))
      → has_start t rows ≡ true
      → has_start t (upsert_row b rows) ≡ true
  unfolding has_start upsert_row
  has_start-upsert_row t b [] h = cc
  has_start-upsert_row t b (x ∷ xs) h =
      ground (arith, eqb_ℤ_iff b.bucket_start_ms x.bucket_start_ms, has_start-upsert_row t b xs)

  pub has_start-insert_all :
      (t : ℤ) (bs rows : List (TierBucket F))
      → has_start t rows ≡ true
      → has_start t (insert_all bs rows) ≡ true
  unfolding insert_all
  has_start-insert_all t [] rows h = h
  has_start-insert_all t (b ∷ bs) rows h =
      has_start-insert_all t bs (upsert_row b rows) (has_start-upsert_row t b rows h)

  pub insert_all-has_start :
      (b : TierBucket F) (bs rows : List (TierBucket F))
      → Listed b bs
      → has_start b.bucket_start_ms (insert_all bs rows) ≡ true
  unfolding insert_all
  insert_all-has_start b [] rows l = absurd l
  insert_all-has_start b (x ∷ bs) rows (inl e) =
      has_start-insert_all b.bucket_start_ms bs (upsert_row x rows)
        (rw e (has_start-upsert_row_self x rows))
  insert_all-has_start b (x ∷ bs) rows (inr l) = insert_all-has_start b bs (upsert_row x rows) l

  -- a key that a deletion takes out of a table is that of a deleted row
  pub has_start-delete_where :
      (t : ℤ) (p : TierBucket F → Bool) (rows : List (TierBucket F))
      → has_start t rows ≡ true
      → (has_start t (delete_where p rows) ≡ true)
        ⊎ ((b : TierBucket F) × (p b ≡ true) × (b.bucket_start_ms ≡ t))
  unfolding has_start delete_where
  has_start-delete_where t p [] h = cc
  has_start-delete_where t p (x ∷ xs) h = elim (Bool-cases (eqb_ℤ x.bucket_start_ms t)) [
    | inl e ↦ elim (Bool-cases (p x)) [
      | inl d ↦ inr (x, d, (eqb_ℤ_iff x.bucket_start_ms t).0 e)
      | inr k ↦ inl (ground (arith, e, k))
    ]
    | inr e ↦ elim (has_start-delete_where t p xs (ground (arith, e))) [
      | inl l ↦ inl (ground (arith, l))
      | inr r ↦ inr r
    ]
  ]

  -- a key is that of a row
  pub has_start-Listed :
      (t : ℤ) (rows : List (TierBucket F))
      → has_start t rows ≡ true
      → (b : TierBucket F) × Listed b rows × (b.bucket_start_ms ≡ t)
  unfolding has_start
  has_start-Listed t [] h = cc
  has_start-Listed t (x ∷ xs) h = elim (Bool-cases (eqb_ℤ x.bucket_start_ms t)) [
    | inl e ↦ (x, inl refl, (eqb_ℤ_iff x.bucket_start_ms t).0 e)
    | inr e ↦ let (b, l, k) = has_start-Listed t xs (ground (arith, h, e)) in (b, inr l, k)
  ]

  -- a row that matches has the key
  pub has_start_of_match :
      (same : F → F → Bool) (b : TierBucket F) (rows : List (TierBucket F))
      → any_of (λ a. row_match same a b) rows ≡ true
      → has_start b.bucket_start_ms rows ≡ true
  unfolding has_start row_match
  has_start_of_match same b [] h = cc
  has_start_of_match same b (x ∷ xs) h = elim (Bool-cases (row_match same x b)) [
    | inl e ↦ ground (arith, e)
    | inr e ↦ ground (arith, has_start_of_match same b xs (ground (arith, h, e)))
  ]

-- no two rows have the same key: it is the primary key
abbrev pub Distinct : {F : Type 0} → List (TierBucket F) → Type 0
Distinct [] = Unit
Distinct (b ∷ bs) = All (λ c. c.bucket_start_ms ≢ b.bucket_start_ms) bs × Distinct bs

module _ {F : Type 0} (same : F → F → Bool) where
  -- a row of the table matches this one
  abbrev pub Matched : TierBucket F → List (TierBucket F) → Type 0
  Matched b rows = any_of (λ a. row_match same a b) rows ≡ true

  match_start :
      (a b : TierBucket F) → row_match same a b ≡ true → a.bucket_start_ms ≡ b.bucket_start_ms
  unfolding row_match
  match_start a b h = (eqb_ℤ_iff a.bucket_start_ms b.bucket_start_ms).0 (ground (arith, h))

  differ : (t u : ℤ) → t ≢ u → eqb_ℤ t u ≡ false
  differ t u n = elim (Bool-cases (eqb_ℤ t u)) [
    | inl e ↦ absurd (n ((eqb_ℤ_iff t u).0 e))
    | inr e ↦ e
  ]

  upsert_row-Matched :
      (b x : TierBucket F) (rows : List (TierBucket F))
      → x.bucket_start_ms ≢ b.bucket_start_ms
      → Matched b rows
      → Matched b (upsert_row x rows)
  unfolding upsert_row
  upsert_row-Matched b x [] n m = cc
  upsert_row-Matched b x (a ∷ rows) n m = elim (Bool-cases (row_match same a b)) [
    | inl e ↦
        let other : eqb_ℤ x.bucket_start_ms a.bucket_start_ms ≡ false =
          differ x.bucket_start_ms a.bucket_start_ms (λ q. n (q ∙ match_start a b e)) in
        ground (arith, e, other)
    | inr e ↦ ground (arith, e, upsert_row-Matched b x rows n)
  ]

  upsert_row-Matched_self :
      (b : TierBucket F) (rows : List (TierBucket F))
      → row_match same b b ≡ true
      → Matched b (upsert_row b rows)
  unfolding upsert_row
  upsert_row-Matched_self b [] r = rw r refl
  upsert_row-Matched_self b (a ∷ rows) r = ground (arith, r, upsert_row-Matched_self b rows r)

  insert_all-Matched :
      (b : TierBucket F) (bs rows : List (TierBucket F))
      → All (λ c. c.bucket_start_ms ≢ b.bucket_start_ms) bs
      → Matched b rows
      → Matched b (insert_all bs rows)
  unfolding insert_all
  insert_all-Matched b [] rows n m = m
  insert_all-Matched b (x ∷ bs) rows (n, ns) m =
      insert_all-Matched b bs (upsert_row x rows) ns (upsert_row-Matched b x rows n m)

  -- every row that is inserted is matched
  pub insert_all_matches :
      (b : TierBucket F) (bs rows : List (TierBucket F))
      → row_match same b b ≡ true
      → Distinct bs
      → Listed b bs
      → Matched b (insert_all bs rows)
  unfolding insert_all
  insert_all_matches b [] rows r d l = absurd l
  insert_all_matches b (x ∷ bs) rows r (n, d) (inl e) =
      insert_all-Matched b bs (upsert_row x rows)
        (subst (λ u. All (λ c. c.bucket_start_ms ≢ u.bucket_start_ms) bs) (sym e) n)
        (subst (λ u. Matched b (upsert_row u rows)) e (upsert_row-Matched_self b rows r))
  insert_all_matches b (x ∷ bs) rows r (n, d) (inr l) =
      insert_all_matches b bs (upsert_row x rows) r d l

  module _ (same_self : (x : F) → same x x ≡ true) where
    same_stat_self : (t : Stat F) → same_stat same t t ≡ true
    unfolding same_stat
    same_stat_self t = rw (same_self t.avg, same_self t.min, same_self t.max) refl

    same_root_self : (o : Option (Stat F)) → same_root same o o ≡ true
    unfolding same_root
    same_root_self none = refl
    same_root_self (some t) = same_stat_self t

    eqb_ℤ_self : (t : ℤ) → eqb_ℤ t t ≡ true
    eqb_ℤ_self t = (eqb_ℤ_iff t t).1 refl

    pub row_match_self : (b : TierBucket F) → row_match same b b ≡ true
    unfolding row_match
    row_match_self b =
        rw
          (
            eqb_ℤ_self b.bucket_start_ms,
            eqb_ℤ_self b.first_captured_at_ms,
            eqb_ℤ_self b.newest_captured_at_ms,
            eqb_ℤ_self b.sample_count,
            same_stat_self b.cpu,
            same_stat_self b.memory,
            same_stat_self b.swap,
            same_stat_self b.load,
            same_root_self b.root_used,
          )
          refl

All-keep_if :
    {A : Type 0} (P : A → Type 0) (p : A → Bool) (xs : List A) → All P xs → All P (keep_if p xs)
All-keep_if P p [] h = tt
All-keep_if P p (x ∷ xs) (h, hs) = elim (Bool-cases (p x)) [
  | inl e ↦ rw e (h, All-keep_if P p xs hs)
  | inr e ↦ rw e (All-keep_if P p xs hs)
]

pub keep_if-Distinct :
    {F : Type 0} (p : TierBucket F → Bool) (rows : List (TierBucket F))
    → Distinct rows
    → Distinct (keep_if p rows)
keep_if-Distinct p [] d = tt
keep_if-Distinct p (b ∷ rows) (n, d) = elim (Bool-cases (p b)) [
  | inl e ↦
      rw e (
        All-keep_if (λ c. c.bucket_start_ms ≢ b.bucket_start_ms) p rows n,
        keep_if-Distinct p rows d,
      )
  | inr e ↦ rw e (keep_if-Distinct p rows d)
]
